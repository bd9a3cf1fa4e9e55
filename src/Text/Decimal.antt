-- ===== src/Text/Decimal.antt =====
-- What `itoa` and `itoahex` write: the digits of the number, read back by their value.
use ze_os_filesystem.Base.{
  ℕ, zero, suc, ◌+◌, ◌-◌, ◌*◌, ◌/◌, ◌%◌, ◌≤◌, ◌<◌, ◌≡◌, ◌≢◌, ◌==◌, ==_iff, lt→ltb, if_true,
  if_false, le→ltb, update, update_self, update_other, Bool-cases, inl, inr, ap, sym, ◌∙◌, arith,
}
use ze_os_filesystem.Text.{Buffer, swap_loop}
use ze_os_filesystem.Text.Digits.{shifted, shifted-suc, Digits}
use ze_os_filesystem.Text.Turn.{swap_loop-reverses}

-- The number that `len` characters stand for, most significant first.
unfoldable pub value : ℕ → (ℕ → ℕ) → Buffer → ℕ → ℕ
value base digit_value b zero = 0
value base digit_value b (suc len) = base * value base digit_value b len + digit_value (b len)

module _ (base : ℕ) (digit digit_value : ℕ → ℕ) where
  -- `len` characters of `b'` are the number `a`, with no zero in front, and a 0 closes them. The rest
  -- is as in `b`.
  pub record Written (a : ℕ) (b : Buffer) (len : ℕ) (b' : Buffer) : Type 0 where
    pub some_digit : 0 < len
    pub digits : (j : ℕ) → j < len → (x : ℕ) × (x < base) × (b' j ≡ digit x)
    pub closed : b' len ≡ 0
    pub number : value base digit_value b' len ≡ a
    pub leading : 1 < len → b' 0 ≢ digit 0
    pub frame : (j : ℕ) → len < j → b' j ≡ b j

  -- The buffer in which the code leaves the digits.
  abbrev pub finished : ℕ → Buffer → Buffer
  finished n t = update (swap_loop (n / 2) 0 n t) n 0

  module _ (two : 1 < base) (inverse : (x : ℕ) → x < base → digit_value (digit x) ≡ x) (a n : ℕ)
      (b t : Buffer) (d : Digits base digit a 0 b n t) where
    finished-at : (j : ℕ) → j < n → finished n t j ≡ digit (shifted base a (n - 1 - j) % base)
    finished-at j h =
        let z : 0 + (n - 1 - j) ≡ n - 1 - j = omega arith in
        update_other (swap_loop (n / 2) 0 n t) n 0 j (omega arith)
        ∙ swap_loop-reverses n t j
        ∙ if_true (t (n - 1 - j)) (t j) (lt→ltb j n h)
        ∙ ap t (sym z)
        ∙ d.written (n - 1 - j) (omega arith)

    small : (x : ℕ) → x % base < base
    small x = grind arith

    value-finished :
        (k : ℕ) → k ≤ n → value base digit_value (finished n t) k ≡ shifted base a (n - k)
    unfolding value
    value-finished zero h = let z : n - 0 ≡ n = omega arith in sym (ap (shifted base a) z ∙ d.whole)
    value-finished (suc k) h =
        let m = n - 1 - k in
        let s = shifted base a m in
        let e : n - k ≡ suc m = omega arith in
        let e' : n - suc k ≡ m = omega arith in
        let here : digit_value (finished n t k) ≡ s % base =
          ap digit_value (finished-at k (omega arith)) ∙ inverse (s % base) (small s) in
        let before : value base digit_value (finished n t) k ≡ s / base =
          value-finished k (omega arith) ∙ ap (shifted base a) e ∙ shifted-suc base a m in
        rw (here, before, e') (grind arith)

    positive : a ≢ 0 → 0 < n
    positive some = elim (Bool-cases (n == 0)) [
      | inl none ↦
          let z : n ≡ 0 = (==_iff n 0).0 none in
          absurd (some (ap (shifted base a) (sym z) ∙ d.whole))
      | inr more ↦ ground arith
    ]

    leading-absurd : a ≢ 0 → 0 < n → finished n t 0 ≡ digit 0 → ⊥
    leading-absurd some more same =
        let m = n - 1 in
        let s = shifted base a m in
        let z : n - 1 - 0 ≡ m = omega arith in
        let e : n ≡ suc m = omega arith in
        let low : s / base ≡ 0 =
          sym (shifted-suc base a m) ∙ ap (shifted base a) (sym e) ∙ d.whole in
        let high = d.shortest m (omega arith) in
        let none : s % base ≡ 0 =
          sym (inverse (s % base) (small s))
          ∙ ap digit_value
              (sym (finished-at 0 more ∙ ap (λ k. digit (shifted base a k % base)) z) ∙ same)
          ∙ inverse 0 (omega arith) in
        absurd (grind arith)

    pub finished-Written : a ≢ 0 → Written a b n (finished n t)
    finished-Written some = record {
      some_digit = positive some;
      digits = λ j h.
          (shifted base a (n - 1 - j) % base, small (shifted base a (n - 1 - j)), finished-at j h);
      closed = update_self (swap_loop (n / 2) 0 n t) n 0;
      number =
          (let z : n - n ≡ 0 = omega arith in
            value-finished n (omega arith) ∙ ap (shifted base a) z);
      leading = λ more same. leading-absurd some (omega arith) same;
      frame = λ j h.
          update_other (swap_loop (n / 2) 0 n t) n 0 j (omega arith)
          ∙ swap_loop-reverses n t j
          ∙ if_false (t (n - 1 - j)) (t j) (le→ltb j n (omega arith))
          ∙ d.after j (omega arith);
    }
