-- ===== src/Ide/Refusal.antt =====
-- The transfers of disk-driver/ide.c that move no data, and those that move another block's.
use ze_os_filesystem.Base.{
  ℕ, ◌^◌, ◌≤◌, ◌<◌, ◌≡◌, ◌≢◌, refl, true, ◌||◌, ◌==◌, le→leb, some, ok, ap, sym, subst, ◌∙◌, arith,
}
use ze_os_filesystem.Base.Int.{pos, negsuc}
use ze_os_filesystem.Ide.{
  Bus, Buffer, dword, port_ctl, port_cmd, cmd_read, cmd_write, wait_data, idesetblock,
  start_command, ideread, idewrite,
}
use ze_os_filesystem.Ide.Drive.{View, Phase, Drive, Selects, accepts, address}
use ze_os_filesystem.Ide.Wait.{free, idewait-free, wait_data-free, wait_data-failed}
use ze_os_filesystem.Ide.Transfer.{
  IsReady, set_up, start_command-set_up, set_up-Selects, idewrite-sent,
}

module _ {D : Type 0} (bus : Bus D) (drive : Drive bus) where
  open drive use {view, latency, capacity, set_control, refuse, start_write}

  start_command-refused :
      (command fuel bloc : ℕ) (d : D)
      → (command == cmd_read) || (command == cmd_write) ≡ true
      → IsReady bus drive fuel d
      → 5 < fuel
      → fuel < 2 ^ 32
      → bloc < 2 ^ 28
      → capacity ≤ bloc
      → (d' : D) × (start_command bus command fuel bloc d ≡ ok (negsuc 0, d'))
        × (view d' ≡ record (set_up bus drive (view d) bloc) { phase = Phase.failed })
  start_command-refused command fuel bloc d known ready six few small beyond =
      let (d1, started, e1) = start_command-set_up bus drive command fuel bloc d ready small in
      let (selects, named) = set_up-Selects bus drive (view d) (view d1) bloc small e1 in
      let (n, le, e2) =
        refuse d1 command known (ap View.pending e1)
          (ap (λ v. accepts (View.phase v)) e1 ∙ ready.accepting) selects (rw named beyond) in
      let d2 = bus.outb port_cmd command d1 in
      let quick = ready.quick in
      let (d', done, e3) =
        wait_data-failed bus drive n fuel 0 d2 (omega arith) (omega arith) (omega arith)
          (ap View.pending e2) (ap View.phase e2) in
      (
        d',
        started ∙ done,
        e3
            ∙ ap free e2
            ∙ ap {A = View} {B = View} (λ v. record v { pending = 0; phase = Phase.failed }) e1,
      )

  IsReady-failed :
      {fuel : ℕ} {d d' : D}
      → IsReady bus drive fuel d
      → (v : View) → view d' ≡ record v { pending = 0; phase = Phase.failed }
      → IsReady bus drive fuel d'
  IsReady-failed {d' = d'} ready v e =
      let soon = ready.soon in
      let rest : (view d').pending ≡ 0 = ap View.pending e in
      record {
        accepting = ap (λ w. accepts (View.phase w)) e;
        soon = omega arith;
        quick = ready.quick;
      }

  -- On a device that takes the next command within the fuel, which is above 5 and below 2 ^ 32, for a
  -- block below 2 ^ 28 that the device does not have: `ideread` and `idewrite` return -1, `ideread`
  -- leaves the buffer as it was, no block changes, and the device takes the next command.
  pub transfer_refused :
      (fuel bloc : ℕ) (b : Buffer) (d : D)
      → IsReady bus drive fuel d
      → 5 < fuel
      → fuel < 2 ^ 32
      → bloc < 2 ^ 28
      → capacity ≤ bloc
      → ((d' : D) × (ideread bus fuel (some b) bloc d ≡ ok (negsuc 0, some b, d'))
          × ((view d').contents ≡ (view d).contents)
          × IsReady bus drive fuel d')
        × ((d' : D) × (idewrite bus fuel (some b) bloc d ≡ ok (negsuc 0, d'))
            × ((view d').contents ≡ (view d).contents)
            × IsReady bus drive fuel d')
  unfolding ideread idewrite
  transfer_refused fuel bloc b d ready six few small beyond =
      let (d1, done1, e1) =
        start_command-refused cmd_read fuel bloc d refl ready six few small beyond in
      let (d2, done2, e2) =
        start_command-refused cmd_write fuel bloc d refl ready six few small beyond in
      (
        (
          d1,
          rw done1 refl,
          ap View.contents e1,
          IsReady-failed ready (set_up bus drive (view d) bloc) e1,
        ),
        (
          d2,
          rw done2 refl,
          ap View.contents e2,
          IsReady-failed ready (set_up bus drive (view d) bloc) e2,
        ),
      )

  -- A block from 2 ^ 28 on is refused by `idesetblock`, which then writes no register, and the callers
  -- go on: the command is for the block that the registers named before.
  start_command-stale :
      (command fuel bloc : ℕ) (d : D)
      → IsReady bus drive fuel d
      → 2 ^ 28 ≤ bloc
      → (d' : D) × (start_command bus command fuel bloc d
          ≡ wait_data bus fuel 0 (bus.outb port_cmd command d'))
        × (view d' ≡ free (view d))
  unfolding start_command idesetblock
  start_command-stale command fuel bloc d ready large =
      let (d1, waited, e1) = idewait-free bus drive (view d).pending fuel d ready.soon refl in
      (bus.outb port_ctl 0x2 d1, rw (waited, le→leb (2 ^ 28) bloc large) refl, set_control d1 ∙ e1)

  -- On a device that takes the next command within the fuel and whose registers name a block that it
  -- has: `idewrite` of a block from 2 ^ 28 on returns 0, and it is the block of the registers that
  -- then holds the first 512 bytes of the buffer. Every other block is as before.
  pub idewrite-stale :
      (fuel bloc : ℕ) (b : Buffer) (d : D)
      → IsReady bus drive fuel d
      → 2 ^ 28 ≤ bloc
      → Selects (view d).regs
      → address (view d).regs < capacity
      → (d' : D) × (idewrite bus fuel (some b) bloc d ≡ ok (pos 0, d'))
        × ((i : ℕ) → i < 128 → (view d').contents (address (view d).regs) i ≡ dword b i)
        × ((other : ℕ)
            → other ≢ address (view d).regs
            → (view d').contents other ≡ (view d).contents other)
  idewrite-stale fuel bloc b d ready large selects inside =
      let (d1, sent, e1) = start_command-stale cmd_write fuel bloc d ready large in
      let r = ap View.regs e1 in
      let k = address (view d).regs in
      let same = ap address r in
      let (n, le, e2) =
        start_write d1 (ap View.pending e1) (ap (λ v. accepts (View.phase v)) e1 ∙ ready.accepting)
          (subst Selects (sym r) selects) (rw same inside) in
      let d2 = bus.outb port_cmd cmd_write d1 in
      let quick = ready.quick in
      let (d3, asked, e3) =
        wait_data-free bus drive n fuel 0 d2 (omega arith) (ap View.pending e2)
          (ap (λ v. accepts (View.phase v)) e2) in
      let all = e3 ∙ ap free e2 in
      let (d', done, here, others, after) =
        idewrite-sent bus drive fuel bloc k b d d3 quick (sent ∙ asked) (ap View.pending all)
          (ap View.phase all ∙ ap (λ j. Phase.writing j 0) same) in
      (
        d',
        done,
        here,
        λ other ne.
            others other ne
            ∙ ap (λ v. View.contents v other) all
            ∙ ap (λ v. View.contents v other) e1,
      )
