-- ===== src/Ide/Wait.antt =====
-- The waiting of disk-driver/ide.c on a device that follows the protocol.
use ze_os_filesystem.Base.{
  ℕ, zero, suc, ◌+◌, ◌%◌, ◌^◌, ◌<◌, ◌≡◌, refl, true, false, ltb, ltb→le, Bool-cases, arith, inl,
  inr, ok, ap, ◌∙◌,
}
use ze_os_filesystem.Base.Int.{pos, negsuc}
use ze_os_filesystem.Ide.{Bus, port_ctl, is_requesting, wait_ready, idewait, wait_data}
use ze_os_filesystem.Ide.Drive.{View, Phase, Drive, accepts}
use ze_os_filesystem.Ide.Status.{busy_lem, free_lem, failed_lem}

-- The view once the device is no longer busy.
abbrev pub free : View → View
free v = record v { pending = 0 }

pub free_self : (v : View) → v.pending ≡ 0 → v ≡ free v
free_self v e = λ i. record v { pending = e i }

module _ {D : Type 0} (bus : Bus D) (drive : Drive bus) where
  open drive use {view, status_byte, status_busy, status_free}

  pub wait_ready-free :
      (n fuel : ℕ) (d : D)
      → n < fuel
      → (view d).pending ≡ n
      → (r : ℕ) × (d' : D) × (wait_ready bus fuel d ≡ ok (r, d')) × (view d' ≡ free (view d))
  unfolding wait_ready
  wait_ready-free n zero d lt e = absurd (omega arith)
  wait_ready-free zero (suc fuel) d lt e =
      let (bits, same) = status_free d e in
      let (ready, _) = free_lem _ (status_byte d) _ bits in
      ((bus.inb port_ctl d).0, (bus.inb port_ctl d).1, rw ready refl, same ∙ free_self (view d) e)
  wait_ready-free (suc n) (suc fuel) d lt e =
      let (bits, next) = status_busy d n e in
      let (busy, _, _) = busy_lem _ (status_byte d) bits in
      let (r, d', done, same) =
        wait_ready-free n fuel (bus.inb port_ctl d).1 (omega arith) (ap View.pending next) in
      (r, d', rw busy done, same ∙ ap free next)

  pub idewait-free :
      (n fuel : ℕ) (d : D)
      → n < fuel
      → (view d).pending ≡ n
      → (d' : D) × (idewait bus fuel false d ≡ ok (pos 0, d')) × (view d' ≡ free (view d))
  unfolding idewait
  idewait-free n fuel d lt e =
      let (r, d', done, same) = wait_ready-free n fuel d lt e in (d', rw done refl, same)

  pub wait_data-free :
      (n fuel times : ℕ) (d : D)
      → n < fuel
      → (view d).pending ≡ n
      → accepts (view d).phase ≡ false
      → (d' : D) × (wait_data bus fuel times d ≡ ok (pos 0, d')) × (view d' ≡ free (view d))
  unfolding wait_data
  wait_data-free n zero times d lt e moves = absurd (omega arith)
  wait_data-free zero (suc fuel) times d lt e moves =
      let (bits, same) = status_free d e in
      let (_, asks) = free_lem _ (status_byte d) _ bits in
      let yes' : is_requesting (bus.inb port_ctl d).0 ≡ true = rw moves at asks in
      ((bus.inb port_ctl d).1, rw yes' refl, same ∙ free_self (view d) e)
  wait_data-free (suc n) (suc fuel) times d lt e moves =
      let (bits, next) = status_busy d n e in
      let (_, idle, fine) = busy_lem _ (status_byte d) bits in
      let (d', done, same) =
        wait_data-free n fuel ((times + 1) % 2 ^ 32) (bus.inb port_ctl d).1 (omega arith)
          (ap View.pending next) (ap (λ v. accepts (View.phase v)) next ∙ moves) in
      (d', ground arith, same ∙ ap free next)

  pub wait_data-failed :
      (n fuel times : ℕ) (d : D)
      → 5 < times + fuel
      → n < fuel
      → times + fuel < 2 ^ 32
      → (view d).pending ≡ n
      → (view d).phase ≡ Phase.failed
      → (d' : D) × (wait_data bus fuel times d ≡ ok (negsuc 0, d')) × (view d' ≡ free (view d))
  unfolding wait_data
  wait_data-failed n zero times d late lt few e fails = absurd (omega arith)
  wait_data-failed zero (suc fuel) times d late lt few e fails =
      let (bits, same) = status_free d e in
      let bits' = rw fails at bits in
      let (_, asks) = free_lem _ (status_byte d) Phase.failed bits' in
      let error = failed_lem _ (status_byte d) bits' in
      elim (Bool-cases (ltb 4 times)) [
        | inl over ↦
            ((bus.inb port_ctl d).1, rw (asks, over, error) refl, same ∙ free_self (view d) e)
        | inr early ↦
            let (d', done, same') =
              wait_data-failed zero fuel (times + 1) (bus.inb port_ctl d).1 (omega arith)
                (omega (arith, ltb→le 4 times early)) (omega arith) (ap View.pending same ∙ e)
                (ap View.phase same ∙ fails) in
            let next : (times + 1) % 2 ^ 32 ≡ times + 1 = omega arith in
            (d', rw (asks, early, next) done, same' ∙ ap free same)
      ]
  wait_data-failed (suc n) (suc fuel) times d late lt few e fails =
      let (bits, next) = status_busy d n e in
      let (_, idle, fine) = busy_lem _ (status_byte d) bits in
      let (d', done, same) =
        wait_data-failed n fuel (times + 1) (bus.inb port_ctl d).1 (omega arith) (omega arith)
          (omega arith) (ap View.pending next) (ap View.phase next ∙ fails) in
      let count : (times + 1) % 2 ^ 32 ≡ times + 1 = omega arith in
      (d', ground arith, same ∙ ap free next)
