-- ===== src/Ide/Transfer.antt =====
-- `ideread` and `idewrite` of disk-driver/ide.c on a device that follows the protocol.
use ze_os_filesystem.Base.{
  ℕ, ◌/◌, ◌%◌, ◌^◌, ◌≤◌, ◌<◌, ◌≡◌, ◌≢◌, refl, false, some, ok, ap, ◌∙◌, arith,
}
use ze_os_filesystem.Base.Int.{pos}
use ze_os_filesystem.Ide.{
  Bus, Buffer, dword, port_ctl, port_cmd, port_count, port_dev, cmd_read, cmd_write, wait_data,
  insl, outsl, start_command, ideread, idewrite,
}
use ze_os_filesystem.Ide.Drive.{View, Phase, Drive, IsAccepting, Selects, accepts, address}
use ze_os_filesystem.Ide.Wait.{free, idewait-free, wait_data-free}
use ze_os_filesystem.Ide.Registers.{registers_lem, chosen, idesetblock-registers}
use ze_os_filesystem.Ide.Words.{byte, filled, insl_lem, outsl_lem}

module _ {D : Type 0} (bus : Bus D) (drive : Drive bus) where
  open drive use {view, latency, capacity, set_control, start_read, start_write, refuse}

  -- A device that takes the next command within the fuel.
  pub record IsReady (fuel : ℕ) (d : D) : Type 0 where
    pub accepting : IsAccepting (view d)
    pub soon : (view d).pending < fuel
    pub quick : latency < fuel

  -- The view at the point where the command is sent.
  abbrev pub set_up : View → ℕ → View
  set_up v bloc = chosen (free v) 1 bloc 0

  pub start_command-set_up :
      (command fuel bloc : ℕ) (d : D)
      → IsReady fuel d
      → bloc < 2 ^ 28
      → (d' : D) × (start_command bus command fuel bloc d
          ≡ wait_data bus fuel 0 (bus.outb port_cmd command d'))
        × (view d' ≡ set_up (view d) bloc)
  unfolding start_command
  start_command-set_up command fuel bloc d ready small =
      let (d1, waited, e1) = idewait-free bus drive (view d).pending fuel d ready.soon refl in
      let (d2, set, e2) =
        idesetblock-registers bus drive 1 bloc 0 d1 (ap View.pending e1)
          (ap (λ v. accepts (View.phase v)) e1 ∙ ready.accepting) small (omega arith) in
      (
        bus.outb port_ctl 0x2 d2,
        rw (waited, set) refl,
        set_control d2 ∙ e2 ∙ ap (λ v. chosen v 1 bloc 0) e1,
      )

  pub set_up-Selects :
      (v v' : View) (bloc : ℕ)
      → bloc < 2 ^ 28
      → v' ≡ set_up v bloc
      → Selects v'.regs × (address v'.regs ≡ bloc)
  set_up-Selects v v' bloc small e =
      let (count, lba, dev, named) = registers_lem v.regs 1 bloc 0 small (omega arith) in
      let r = ap View.regs e in
      (
        (
          ap (λ f. f port_count) r ∙ count,
          ap (λ f. f port_dev / 64 % 2) r ∙ lba,
          ap (λ f. f port_dev / 16 % 2) r ∙ dev,
        ),
        ap address r ∙ named,
      )

  -- The view when the data is asked for.
  abbrev asked : View → ℕ → (ℕ → ℕ → Phase) → View
  asked v bloc phase = record (set_up v bloc) { phase = phase bloc 0 }

  -- A command that the device takes: it then asks for the data.
  start_command-asked :
      (command fuel bloc : ℕ) (d : D) (phase : ℕ → ℕ → Phase)
      → ((k i : ℕ) → accepts (phase k i) ≡ false)
      → ((d : D)
          → (view d).pending ≡ 0
          → IsAccepting (view d)
          → Selects (view d).regs
          → address (view d).regs < capacity
          → (n : ℕ) × (n ≤ latency)
            × (view (bus.outb port_cmd command d)
                ≡ record (view d) { pending = n; phase = phase (address (view d).regs) 0 }))
      → IsReady fuel d
      → bloc < 2 ^ 28
      → bloc < capacity
      → (d' : D) × (start_command bus command fuel bloc d ≡ ok (pos 0, d'))
        × (view d' ≡ asked (view d) bloc phase)
  start_command-asked command fuel bloc d phase moves starts ready small inside =
      let (d1, started, e1) = start_command-set_up command fuel bloc d ready small in
      let (selects, named) = set_up-Selects (view d) (view d1) bloc small e1 in
      let (n, le, e2) =
        starts d1 (ap View.pending e1) (ap (λ v. accepts (View.phase v)) e1 ∙ ready.accepting)
          selects (rw named inside) in
      let d2 = bus.outb port_cmd command d1 in
      let quick = ready.quick in
      let (d', done, e3) =
        wait_data-free bus drive n fuel 0 d2 (omega arith) (ap View.pending e2)
          (ap (λ v. accepts (View.phase v)) e2 ∙ moves (address (view d1).regs) 0) in
      (
        d',
        started ∙ done,
        e3
            ∙ ap free e2
            ∙ ap {A = View} {B = View}
                (λ v. record v { pending = 0; phase = phase (address (view d1).regs) 0 }) e1
            ∙ ap {A = ℕ} {B = View} (λ k. record (set_up (view d) bloc) { phase = phase k 0 })
                named,
      )

  -- On a device that takes the next command within the fuel, for a block below 2 ^ 28 that the device
  -- has: `ideread` returns 0, the first 512 bytes of the buffer are then those of the block, the
  -- others are as before, no block has changed, and the device takes the next command.
  pub ideread-contents :
      (fuel bloc : ℕ) (b : Buffer) (d : D)
      → IsReady fuel d
      → bloc < 2 ^ 28
      → bloc < capacity
      → (b' : Buffer) × (d' : D) × (ideread bus fuel (some b) bloc d ≡ ok (pos 0, some b', d'))
        × ((j : ℕ) → j < 512 → b' j ≡ byte ((view d).contents bloc (j / 4)) (j % 4))
        × ((j : ℕ) → 512 ≤ j → b' j ≡ b j)
        × ((view d').contents ≡ (view d).contents)
        × IsReady fuel d'
  unfolding ideread
  ideread-contents fuel bloc b d ready small inside =
      let (d1, started, e1) =
        start_command-asked cmd_read fuel bloc d Phase.reading (λ k i. refl) start_read ready small
          inside in
      let (bytes, (p, le, e2)) =
        insl_lem bus drive 127 0 bloc b d1 refl (ap View.pending e1) (ap View.phase e1) in
      let b' = (insl bus 128 0 b d1).0 in
      let d2 = (insl bus 128 0 b d1).1 in
      let quick = ready.quick in
      let p2 : (view d2).pending ≡ p = ap View.pending e2 in
      let (d', done, e3) = idewait-free bus drive p fuel d2 (omega arith) p2 in
      let all = e3 ∙ ap free e2 in
      let same = ap (λ v. View.contents v bloc) e1 in
      let pending : (view d').pending ≡ 0 = ap View.pending all in
      (
        b',
        d',
        rw (started, done) refl,
        (λ j lt. bytes j ∙ ap {A = ℕ → ℕ} {B = ℕ} (λ w. filled w 0 b j) same ∙ ground arith),
        (λ j ge. bytes j ∙ ground arith),
        ap View.contents all ∙ ap View.contents e1,
        record {
          accepting = ap (λ v. accepts (View.phase v)) all;
          soon = omega arith;
          quick = quick;
        },
      )

  -- Once the device asks for the data of block `k`, `idewrite` sends them.
  pub idewrite-sent :
      (fuel bloc k : ℕ) (b : Buffer) (d d1 : D)
      → latency < fuel
      → start_command bus cmd_write fuel bloc d ≡ ok (pos 0, d1)
      → (view d1).pending ≡ 0
      → (view d1).phase ≡ Phase.writing k 0
      → (d' : D) × (idewrite bus fuel (some b) bloc d ≡ ok (pos 0, d'))
        × ((i : ℕ) → i < 128 → (view d').contents k i ≡ dword b i)
        × ((other : ℕ) → other ≢ k → (view d').contents other ≡ (view d1).contents other)
        × IsReady fuel d'
  unfolding idewrite
  idewrite-sent fuel bloc k b d d1 quick started now phase =
      let (p, le, contents, e2, here, others) = outsl_lem bus drive 127 0 k b d1 refl now phase in
      let d2 = outsl bus 128 0 b d1 in
      let p2 : (view d2).pending ≡ p = ap View.pending e2 in
      let (d', done, e3) = idewait-free bus drive p fuel d2 (omega arith) p2 in
      let all = e3 ∙ ap free e2 in
      let pending : (view d').pending ≡ 0 = ap View.pending all in
      (
        d',
        rw (started, done) refl,
        (λ i lt. ap (λ v. View.contents v k i) all ∙ here i ∙ ground arith),
        (λ other ne. ap (λ v. View.contents v other) all ∙ others other ne),
        record {
          accepting = ap (λ v. accepts (View.phase v)) all;
          soon = omega arith;
          quick = quick;
        },
      )

  -- On a device that takes the next command within the fuel, for a block below 2 ^ 28 that the device
  -- has: `idewrite` returns 0, the block then holds the first 512 bytes of the buffer, in double words,
  -- every other block is as before, and the device takes the next command.
  pub idewrite-contents :
      (fuel bloc : ℕ) (b : Buffer) (d : D)
      → IsReady fuel d
      → bloc < 2 ^ 28
      → bloc < capacity
      → (d' : D) × (idewrite bus fuel (some b) bloc d ≡ ok (pos 0, d'))
        × ((i : ℕ) → i < 128 → (view d').contents bloc i ≡ dword b i)
        × ((other : ℕ) → other ≢ bloc → (view d').contents other ≡ (view d).contents other)
        × IsReady fuel d'
  idewrite-contents fuel bloc b d ready small inside =
      let (d1, started, e1) =
        start_command-asked cmd_write fuel bloc d Phase.writing (λ k i. refl) start_write ready
          small inside in
      let (d', done, here, others, after) =
        idewrite-sent fuel bloc bloc b d d1 ready.quick started (ap View.pending e1)
          (ap View.phase e1) in
      (d', done, here, (λ other ne. others other ne ∙ ap (λ v. View.contents v other) e1), after)
