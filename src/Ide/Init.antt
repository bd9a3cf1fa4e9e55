-- ===== src/Ide/Init.antt =====
-- `ideinit` of disk-driver/ide.c: when it finds a disk.
use ze_os_filesystem.Base.{
  ℕ, zero, suc, ◌<◌, ◌≡◌, ◌≢◌, refl, ◌↔◌, Bool, true, false, ◌||◌, ◌==◌, ==_iff, if◌then◌else◌,
  Bool-cases, inl, inr, ok, arith,
}
use ze_os_filesystem.Base.Int.{ℤ, pos, negsuc}
use ze_os_filesystem.Ide.{Bus, Disks, port_cmd, port_dev, probe, ide_soft_reset, ideinit}

result-lem : (found : Bool) → ((if found then pos 0 else negsuc 0) ≡ pos 0) ↔ (found ≡ true)
result-lem true = (λ h. refl, λ h. refl)
result-lem false = (λ h. cc, λ h. cc)

module _ {D : Type 0} (bus : Bus D) where
  -- What the `k`-th reading of `STATUS` from now on gives.
  abbrev pub reading : ℕ → D → ℕ
  reading zero d = (bus.inb port_cmd d).0
  reading (suc k) d = reading k (bus.inb port_cmd d).1

  earlier :
      (tries k : ℕ) (d : D)
      → (reading 0 d == 0) ≡ true
      → k < suc tries
      → reading k d ≢ 0
      → (j : ℕ) × (j < tries) × (reading j (bus.inb port_cmd d).1 ≢ 0)
  earlier tries zero d quiet lt some = absurd (some ((==_iff (reading 0 d) 0).0 quiet))
  earlier tries (suc k) d quiet lt some = (k, omega arith, some)

  probe-found :
      (tries : ℕ) (d : D)
      → ((probe bus tries d).0 ≡ true) ↔ ((k : ℕ) × (k < tries) × (reading k d ≢ 0))
  unfolding probe
  probe-found zero d = (λ h. cc, λ h. absurd (omega (arith, h.1)))
  probe-found (suc tries) d = elim (Bool-cases (reading 0 d == 0)) [
    | inl quiet ↦
        let rest = probe-found tries (bus.inb port_cmd d).1 in
        (
          λ h. let (k, lt, some) = rest.0 (rw quiet at h) in (suc k, omega arith, some),
          λ h. rw quiet (rest.1 (earlier tries h.0 d quiet h.1 h.2)),
        )
    | inr here ↦ (λ h. (0, omega arith, ground arith), λ h. rw here refl)
  ]

  -- With no disk known before, once the reset is over: `ideinit` returns, finds disk 1 exactly when one
  -- of 1000 readings of its status is not 0, then disk 0 likewise, and its result is 0 exactly when it
  -- found a disk.
  pub ideinit-finds :
      (fuel : ℕ) (d d0 : D)
      → ide_soft_reset bus fuel d ≡ ok d0
      → (r : ℤ) × (disks : Disks) × (d' : D) × (ideinit bus fuel
            (record { havedisk0 = false; havedisk1 = false })
            d
          ≡ ok (r, disks, d'))
        × ((disks.havedisk1 ≡ true)
            ↔ ((k : ℕ) × (k < 1000) × (reading k (bus.outb port_dev 0xF0 d0) ≢ 0)))
        × ((disks.havedisk0 ≡ true) ↔ (
            (k : ℕ) × (k < 1000)
            × (reading k (bus.outb port_dev 0xE0 (probe bus 1000 (bus.outb port_dev 0xF0 d0)).1)
                ≢ 0)))
        × ((r ≡ pos 0) ↔ ((disks.havedisk0 || disks.havedisk1) ≡ true))
  unfolding ideinit
  ideinit-finds fuel d d0 reset =
      let one = probe bus 1000 (bus.outb port_dev 0xF0 d0) in
      let zero' = probe bus 1000 (bus.outb port_dev 0xE0 one.1) in
      (
        if zero'.0 || one.0 then pos 0 else negsuc 0,
        record { havedisk0 = zero'.0; havedisk1 = one.0 },
        zero'.1,
        rw (reset, ideinit) refl,
        probe-found 1000 (bus.outb port_dev 0xF0 d0),
        probe-found 1000 (bus.outb port_dev 0xE0 one.1),
        result-lem (zero'.0 || one.0),
      )
