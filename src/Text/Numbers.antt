-- ===== src/Text/Numbers.antt =====
-- `itoa`, `itoahex` and `strlen` as the callers see them.
use ze_os_filesystem.Base.{
  ℕ, zero, suc, ◌+◌, ◌-◌, ◌^◌, ◌≤◌, ◌<◌, ◌≡◌, ◌≢◌, refl, true, false, ◌==◌, ==_iff, ==_ne, subst,
  fun_ext, ltb, if◌then◌else◌, update, Bool-cases, inl, inr, ok, ap, sym, arith,
}
use ze_os_filesystem.Base.Int.{pos}
use ze_os_filesystem.Text.{
  Buffer, decimal, hex, rest, prefixed, itoa_pos, itoa, itoahex, strlen_loop,
}
use ze_os_filesystem.Text.Digits.{digits_loop-Digits}
use ze_os_filesystem.Text.Decimal.{value, Written, finished, finished-Written}

abbrev pub decimal_value : ℕ → ℕ
decimal_value c = c - b'0'

abbrev pub hex_value : ℕ → ℕ
hex_value c = if ltb c b'A' then c - b'0' else c - b'A' + 10

zero-Written :
    (base : ℕ) (digit digit_value : ℕ → ℕ) (b : Buffer)
    → 1 < base
    → digit 0 ≡ b'0'
    → digit_value (digit 0) ≡ 0
    → Written base digit digit_value 0 b 1 (update (update b 0 b'0') 1 0)
unfolding value
zero-Written base digit digit_value b two first none = record {
  some_digit = omega arith;
  digits = λ j h. (0, omega arith, ground arith);
  closed = refl;
  number = rw (sym first, none) (omega arith);
  leading = λ h. absurd (omega arith);
  frame = λ j h. ground arith;
}

strlen_loop-closed :
    (fuel i len : ℕ) (b : Buffer)
    → len < i + fuel
    → i ≤ len
    → ((j : ℕ) → j < len → b j ≢ 0)
    → b len ≡ 0
    → strlen_loop fuel i b ≡ ok len
unfolding strlen_loop
strlen_loop-closed zero i len b e le some end = absurd (omega arith)
strlen_loop-closed (suc fuel) i len b e le some end = elim (Bool-cases (i == len)) [
  | inl last ↦
      let l : i ≡ len = (==_iff i len).0 last in
      let z : (b i == 0) ≡ true = rw (l, end) refl in rw (z, l) refl
  | inr more ↦
      let z : (b i == 0) ≡ false = ==_ne (b i) 0 (some i (ground arith)) in
      rw z (strlen_loop-closed fuel (i + 1) len b (omega arith) (ground arith) some end)
]

rest-prefixed : (t : Buffer) → rest (prefixed t) ≡ t
rest-prefixed t = fun_ext (λ k. let z : k + 2 - 2 ≡ k = omega arith in ground (arith, ap t z))

strlen-Written :
    (a len : ℕ) (b b' : Buffer)
    → len ≤ 10
    → Written 10 decimal decimal_value a b len b'
    → strlen_loop 11 0 b' ≡ ok len
strlen-Written a len b b' le w =
    strlen_loop-closed 11 0 len b' (omega arith) (omega arith)
      (λ j h zero'. let (x, _, e) = w.digits j h in absurd (omega (arith, e, zero'))) w.closed

-- For a number below 10 ^ 10, which every `int` that is not negative is: `itoa` returns, and leaves 1
-- to 10 decimal digits, closed by 0, with no zero in front, whose value is the number. Nothing behind
-- them is written, and `strlen` then returns how many they are.
pub itoa-value :
    (a : ℕ) (b : Buffer)
    → a < 10 ^ 10
    → (b' : Buffer) × (len : ℕ) × (itoa (pos a) b ≡ ok b')
      × (len ≤ 10)
      × Written 10 decimal decimal_value a b len b'
      × (strlen_loop 11 0 b' ≡ ok len)
unfolding itoa itoa_pos
itoa-value a b small = elim (Bool-cases (a == 0)) [
  | inl none ↦
      let z : a ≡ 0 = (==_iff a 0).0 none in
      let b' = update (update b 0 b'0') 1 0 in
      let w : Written 10 decimal decimal_value a b 1 b' =
        rw z (zero-Written 10 decimal decimal_value b (omega arith) refl refl) in
      (b', 1, rw none refl, omega arith, w, strlen-Written a 1 b b' (omega arith) w)
  | inr some ↦
      let (n, t, le, done, d) = digits_loop-Digits 10 decimal 10 a 0 b (omega arith) in
      let z : 0 + n ≡ n = omega arith in
      let b' = finished 10 decimal decimal_value n t in
      let w =
        finished-Written 10 decimal decimal_value (omega arith) (λ x h. omega arith) a n b t d
          (ground arith) in
      (b', n, rw (some, done, z) refl, le, w, strlen-Written a n b b' le w)
]

-- For an `unsigned`: `itoahex` returns, and leaves `0x` and then 1 to 8 digits, `0` to `9` and `A` to
-- `F`, closed by 0, with no zero in front, whose value in base 16 is the number. Nothing behind them
-- is written.
pub itoahex-value :
    (a : ℕ) (b : Buffer)
    → a < 2 ^ 32
    → (b' : Buffer) × (len : ℕ) × (itoahex a b ≡ ok b')
      × (b' 0 ≡ b'0')
      × (b' 1 ≡ b'x')
      × (len ≤ 8)
      × Written 16 hex hex_value a (rest b) len (rest b')
unfolding itoahex
itoahex-value a b small = elim (Bool-cases (a == 0)) [
  | inl none ↦
      let z : a ≡ 0 = (==_iff a 0).0 none in
      let t = update (update (rest b) 0 b'0') 1 0 in
      (
        prefixed t,
        1,
        rw none refl,
        refl,
        refl,
        omega arith,
        subst (Written 16 hex hex_value a (rest b) 1) (sym (rest-prefixed t))
            (rw z (zero-Written 16 hex hex_value (rest b) (omega arith) refl refl)),
      )
  | inr some ↦
      let (n, t, le, done, d) = digits_loop-Digits 16 hex 8 a 0 (rest b) (omega arith) in
      let z : 0 + n ≡ n = omega arith in
      let t' = finished 16 hex hex_value n t in
      (
        prefixed t',
        n,
        rw (some, done, z) refl,
        refl,
        refl,
        le,
        subst (Written 16 hex hex_value a (rest b) n) (sym (rest-prefixed t')) (
            finished-Written 16 hex hex_value (omega arith) (λ x h. ground arith) a n (rest b) t d
              (ground arith)),
      )
]
