-- ===== src/Ide/Poll.antt =====
-- The loops of disk-driver/ide.c on the status register: when they end, and with what.
use ze_os_filesystem.Base.{
  tested_below, tested_below_at, not, ◌&&◌, ◌/◌, ◌%◌, ◌==◌, ◌||◌, if◌then◌else◌, false, ℕ, zero,
  suc, ◌+◌, ◌^◌, ◌<◌, ◌≡◌, refl, sym, ◌∙◌, ◌⊎◌, subst, ◌↔◌, Bool, true, ltb, Bool-cases, arith, inl,
  inr, Result, ok, out_of_fuel, ◌>>=◌,
}
use ze_os_filesystem.Base.Int.{ℤ, pos, negsuc}
use ze_os_filesystem.Ide.{
  is_fault, Bus, port_ctl, is_ready, is_requesting, is_error, wait_ready, idewait, wait_data,
}

abbrev pub Returns {ℓ} : {A : Type ℓ} → Result A → Type ℓ
Returns {A} r = (x : A) × (r ≡ ok x)

stuck {ℓ κ} : {A : Type ℓ} {P : Type κ} {x : A} → ◌≡◌ {A = Result A} out_of_fuel (ok x) → P
stuck e = cc

>>=-Returns {ℓ κ} :
    {A : Type ℓ} {B : Type κ} (r : Result A) (f : A → B) → Returns r → Returns (r >>= λ x. ok (f x))
>>=-Returns (ok x) f h = (f x, refl)
>>=-Returns Result.fault f h = cc (h.1)
>>=-Returns out_of_fuel f h = cc (h.1)

-- A status that ends the wait for a device: 0, or a byte with bit 6 and without bit 7. One that shows
-- a failure: 0, or a byte with bit 5 or bit 0.
abbrev pub answers : ℕ → Bool
answers r = (r == 0) || (r / 64 == 1)

abbrev pub has_failed : ℕ → Bool
has_failed r = (r == 0) || (r / 32 % 2 == 1) || (r % 2 == 1)

abbrev agree : Bool → Bool → Bool
agree a b = (a && b) || (not a && not b)

agree_elim : (a b : Bool) → agree a b ≡ true → a ≡ b
agree_elim true true h = refl
agree_elim true false h = cc
agree_elim false true h = cc
agree_elim false false h = refl

is_ready-answers : (r : ℕ) → r < 256 → is_ready r ≡ answers r
unfolding is_ready tested_below
is_ready-answers r byte =
    agree_elim (is_ready r) (answers r)
      (tested_below_at 256 (λ x. agree (is_ready x) (answers x)) r refl byte)

is_fault-has_failed : (r : ℕ) → r < 256 → ((r == 0) || is_fault r) ≡ has_failed r
unfolding is_fault tested_below
is_fault-has_failed r byte =
    agree_elim ((r == 0) || is_fault r) (has_failed r)
      (tested_below_at 256 (λ x. agree ((x == 0) || is_fault x) (has_failed x)) r refl byte)

module _ {D : Type 0} (bus : Bus D) where
  -- The state after `k` readings of the status, and what the reading after those gives.
  abbrev pub after : ℕ → D → D
  after zero d = d
  after (suc k) d = after k (bus.inb port_ctl d).1

  abbrev pub status : ℕ → D → ℕ
  status k d = (bus.inb port_ctl (after k d)).0

  wait_ready-here :
      (fuel : ℕ) (d : D)
      → is_ready (status 0 d) ≡ true
      → wait_ready bus (suc fuel) d ≡ ok (bus.inb port_ctl d)
  unfolding wait_ready
  wait_ready-here fuel d h = rw h refl

  wait_ready-later :
      (fuel : ℕ) (d : D)
      → is_ready (status 0 d) ≡ false
      → wait_ready bus (suc fuel) d ≡ wait_ready bus fuel (bus.inb port_ctl d).1
  unfolding wait_ready
  wait_ready-later fuel d h = rw h refl

  module _ (byte : (d : D) → (bus.inb port_ctl d).0 < 256) where
    wait_ready-never :
        (fuel : ℕ) (d : D)
        → ((k : ℕ) → k < fuel → answers (status k d) ≡ false)
        → wait_ready bus fuel d ≡ out_of_fuel
    unfolding wait_ready
    wait_ready-never zero d silent = refl
    wait_ready-never (suc fuel) d silent =
        let busy = is_ready-answers (status 0 d) (byte d) ∙ silent 0 (omega arith) in
        wait_ready-later fuel d busy
        ∙ wait_ready-never fuel (bus.inb port_ctl d).1 (λ k lt. silent (suc k) (omega arith))

    wait_ready-first :
        (fuel k : ℕ) (d : D)
        → k < fuel
        → answers (status k d) ≡ true
        → ((j : ℕ) → j < k → answers (status j d) ≡ false)
        → wait_ready bus fuel d ≡ ok (status k d, after (suc k) d)
    wait_ready-first zero k d lt h silent = absurd (omega arith)
    wait_ready-first (suc fuel) zero d lt h silent =
        wait_ready-here fuel d (is_ready-answers (status 0 d) (byte d) ∙ h)
    wait_ready-first (suc fuel) (suc k) d lt h silent =
        let busy = is_ready-answers (status 0 d) (byte d) ∙ silent 0 (omega arith) in
        wait_ready-later fuel d busy
        ∙ wait_ready-first fuel k (bus.inb port_ctl d).1 (omega arith) h
            (λ j less. silent (suc j) (omega arith))

    -- Let every reading of the status be a byte. Where none of the first so many readings as the fuel
    -- given is 0 or has bit 6 without bit 7, `idewait` still runs. Else it ends with the first reading
    -- that is or has, and has made no further one. Its result is then -1 where errors are to be checked
    -- and this reading is 0 or has bit 5 or bit 0, and 0 in every other case.
    pub idewait_lem :
        (fuel : ℕ) (checkerr : Bool) (d : D)
        → (((k : ℕ) → k < fuel → answers (status k d) ≡ false)
            → idewait bus fuel checkerr d ≡ out_of_fuel)
          × ((k : ℕ)
              → k < fuel
              → answers (status k d) ≡ true
              → ((j : ℕ) → j < k → answers (status j d) ≡ false)
              → idewait bus fuel checkerr d
                ≡ ok (
                  if checkerr && has_failed (status k d) then negsuc 0 else pos 0,
                  after (suc k) d,
                ))
    unfolding idewait
    idewait_lem fuel checkerr d = (
      λ silent. rw (wait_ready-never fuel d silent) refl,
      λ k lt h silent.
          let bits = is_fault-has_failed (status k d) (byte (after k d)) in
          rw (wait_ready-first fuel k d lt h silent, sym bits) refl,
    )

  -- The readings that end the loop on `DRQ` with the data, and those that end it at all.
  abbrev pub Ends : ℕ → ℕ → D → Type 0
  Ends times k d =
      (is_requesting (status k d) || (ltb 4 (times + k) && is_error (status k d))) ≡ true

  wait_data-here :
      (fuel times : ℕ) (d : D) → Ends times 0 d → Returns (wait_data bus (suc fuel) times d)
  unfolding wait_data
  wait_data-here fuel times d h = elim (Bool-cases (is_requesting (status 0 d))) [
    | inl now ↦ ((pos 0, (bus.inb port_ctl d).1), rw now refl)
    | inr more ↦ ((negsuc 0, (bus.inb port_ctl d).1), ground arith)
  ]

  wait_data-later :
      (fuel times : ℕ) (d : D)
      → (is_requesting (status 0 d) || (ltb 4 (times + 0) && is_error (status 0 d))) ≡ false
      → times + 1 < 2 ^ 32
      → wait_data bus (suc fuel) times d ≡ wait_data bus fuel (suc times) (bus.inb port_ctl d).1
  unfolding wait_data
  wait_data-later fuel times d h few =
      let next : (times + 1) % 2 ^ 32 ≡ suc times = omega arith in ground arith

  Ends-suc :
      (times k m : ℕ) (d : D)
      → times + suc k ≡ m
      → Ends times (suc k) d
      → (is_requesting (status (suc k) d) || (ltb 4 m && is_error (status (suc k) d))) ≡ true
  Ends-suc times k m d e h = rw (← e) h

  Ends-zero :
      (times : ℕ) (d : D)
      → (Ends times 0 d)
        ⊎ ((is_requesting (status 0 d) || (ltb 4 (times + 0) && is_error (status 0 d))) ≡ false)
  Ends-zero times d = Bool-cases _

  wait_data-Returns :
      (fuel k times : ℕ) (d : D)
      → k < fuel
      → times + fuel < 2 ^ 32
      → Ends times k d
      → Returns (wait_data bus fuel times d)
  wait_data-Returns zero k times d lt few h = absurd (omega arith)
  wait_data-Returns (suc fuel) zero times d lt few h = wait_data-here fuel times d h
  wait_data-Returns (suc fuel) (suc k) times d lt few h = elim (Ends-zero times d) [
    | inl now ↦ wait_data-here fuel times d now
    | inr more ↦ rw (wait_data-later fuel times d more (omega arith)) (
        wait_data-Returns fuel k (suc times) (bus.inb port_ctl d).1 (omega arith) (omega arith)
          (Ends-suc times k (suc times + k) d (omega arith) h))
  ]

  wait_data-Ends :
      (fuel times : ℕ) (d : D) {x : ℤ × D}
      → times + fuel < 2 ^ 32
      → wait_data bus fuel times d ≡ ok x
      → (k : ℕ) × (k < fuel) × Ends times k d
  unfolding wait_data
  wait_data-Ends zero times d few e = stuck e
  wait_data-Ends (suc fuel) times d {x = x} few e = elim (Ends-zero times d) [
    | inl now ↦ (0, omega arith, now)
    | inr more ↦
        let (k, lt, h) =
          wait_data-Ends fuel (suc times) (bus.inb port_ctl d).1 {x = x} (omega arith)
            (sym (wait_data-later fuel times d more (omega arith)) ∙ e) in
        (
          suc k,
          omega arith,
          (let m : suc times + k ≡ times + suc k = omega arith in
              subst
                (λ n.
                  (is_requesting (status (suc k) d) || (ltb 4 n && is_error (status (suc k) d)))
                  ≡ true)
                m h),
        )
  ]

  -- With fuel for fewer than 2 ^ 32 readings of the status, the loop on `DRQ` returns exactly when one of
  -- those readings shows a request for data, or one after the first five shows an error.
  pub wait_data-Returns_iff :
      (fuel : ℕ) (d : D)
      → fuel < 2 ^ 32
      → Returns (wait_data bus fuel 0 d) ↔ (
          (k : ℕ) × (k < fuel)
          × ((is_requesting (status k d) || (ltb 4 k && is_error (status k d))) ≡ true))
  wait_data-Returns_iff fuel d few = (
    λ h.
        let (k, lt, e) = wait_data-Ends fuel 0 d {x = h.0} (omega arith) h.1 in
        (k, lt, (let z : 0 + k ≡ k = omega arith in rw z at e)),
    λ h.
        wait_data-Returns fuel h.0 0 d h.1 (omega arith)
          (let z : 0 + h.0 ≡ h.0 = omega arith in rw z h.2),
  )
