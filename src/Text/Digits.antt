-- ===== src/Text/Digits.antt =====
-- The loops of `itoa`: the digits backwards, then turned round.
use ze_os_filesystem.Base.{
  ℕ, zero, suc, ◌+◌, ◌/◌, ◌%◌, ◌≤◌, ◌<◌, ◌≡◌, ◌≢◌, refl, ◌==◌, update, update_self, update_other,
  Bool-cases, ==_iff, inl, inr, ok, ap, ◌∙◌, arith,
}
use ze_os_filesystem.Text.{Buffer, digits_loop}

-- `a` without its last `k` digits.
abbrev pub shifted : ℕ → ℕ → ℕ → ℕ
shifted base a zero = a
shifted base a (suc k) = shifted base (a / base) k

pub shifted-suc : (base a k : ℕ) → shifted base a (suc k) ≡ shifted base a k / base
shifted-suc base a zero = refl
shifted-suc base a (suc k) = shifted-suc base (a / base) k

module _ (base : ℕ) (digit : ℕ → ℕ) where
  -- What the loop leaves: `n` digits from index `i` on, all of them, and nothing else is written.
  pub record Digits (a i : ℕ) (b : Buffer) (n : ℕ) (b' : Buffer) : Type 0 where
    pub written : (k : ℕ) → k < n → b' (i + k) ≡ digit (shifted base a k % base)
    pub before : (j : ℕ) → j < i → b' j ≡ b j
    pub after : (j : ℕ) → i + n ≤ j → b' j ≡ b j
    pub whole : shifted base a n ≡ 0
    pub shortest : (k : ℕ) → k < n → 0 < shifted base a k

  Digits-nil : (i : ℕ) (b : Buffer) → Digits 0 i b 0 b
  Digits-nil i b = record {
    written = λ k h. absurd (omega arith);
    before = λ j h. refl;
    after = λ j h. refl;
    whole = refl;
    shortest = λ k h. absurd (omega arith);
  }

  module _ (a i n : ℕ) (b b' : Buffer)
      (d : Digits (a / base) (i + 1) (update b i (digit (a % base))) n b') where
    written-cons : (k : ℕ) → k < suc n → b' (i + k) ≡ digit (shifted base a k % base)
    written-cons zero h =
        let z : i + 0 ≡ i = omega arith in
        ap b' z ∙ d.before i (omega arith) ∙ update_self b i (digit (a % base))
    written-cons (suc k) h =
        let z : i + suc k ≡ i + 1 + k = omega arith in ap b' z ∙ d.written k (omega arith)

    kept : (j : ℕ) → j ≢ i → update b i (digit (a % base)) j ≡ b j
    kept = update_other b i (digit (a % base))

    shortest-cons : a ≢ 0 → (k : ℕ) → k < suc n → 0 < shifted base a k
    shortest-cons some zero h = omega arith
    shortest-cons some (suc k) h = d.shortest k (omega arith)

    Digits-cons : a ≢ 0 → Digits a i b (suc n) b'
    Digits-cons some = record {
      written = written-cons;
      before = λ j h. d.before j (omega arith) ∙ kept j (omega arith);
      after = λ j h. d.after j (omega arith) ∙ kept j (omega arith);
      whole = d.whole;
      shortest = shortest-cons some;
    }

  -- The fuel covers the digits.
  pub digits_loop-Digits :
      (fuel a i : ℕ) (b : Buffer)
      → shifted base a fuel ≡ 0
      → (n : ℕ) × (b' : Buffer) × (n ≤ fuel)
        × (digits_loop base digit fuel a i b ≡ ok (i + n, b'))
        × Digits a i b n b'
  unfolding digits_loop
  digits_loop-Digits zero a i b e =
      let z : i + 0 ≡ i = omega arith in (0, b, omega arith, rw (e, z) refl, rw e (Digits-nil i b))
  digits_loop-Digits (suc fuel) a i b e = elim (Bool-cases (a == 0)) [
    | inl none ↦
        let z : i + 0 ≡ i = omega arith in
        let e' : a ≡ 0 = (==_iff a 0).0 none in
        (0, b, omega arith, rw (none, z) refl, rw e' (Digits-nil i b))
    | inr some ↦
        let (n, b', le, done, d) =
          digits_loop-Digits fuel (a / base) (i + 1) (update b i (digit (a % base))) e in
        let z : i + 1 + n ≡ i + suc n = omega arith in
        (suc n, b', omega arith, rw (some, done, z) refl, Digits-cons a i n b b' d (ground arith))
  ]
