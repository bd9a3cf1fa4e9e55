-- ===== src/Clock/Display.antt =====
-- What the clock of zeos_full/zeos_interrupt.c shows.
use ze_os_filesystem.Base.{
  lt→ltb, le→ltb, ◌^◌, ◌≤◌, ℕ, ◌+◌, ◌/◌, ◌%◌, ◌<◌, ◌≡◌, refl, Bool, true, false, ◌&&◌, leb, ◌==◌,
  if◌then◌else◌, update, tested_below, tested_below_at, ok, fault, out_of_fuel, ap, ◌⊎◌, arith, sym,
  subst, ◌∙◌, ok-injective,
}
use ze_os_filesystem.Text.{Buffer, itoa, itoa_pos, digits_loop, swap_loop}
use ze_os_filesystem.Screen.{cell}
use ze_os_filesystem.Clock.{Clock, number, two_digits}
use ze_os_filesystem.Text.Numbers.{itoa-value}

pub number_lem : (n : ℕ) (b : Buffer) → n < 1000 → (t : Buffer) × (number n b ≡ ok t)
unfolding number
number_lem n b h =
    let (t, len, done, _, _, _) = itoa-value n b (omega arith) in
    (t, rw (done, lt→ltb n 1000 h) refl)

pub number-overflow : (n : ℕ) (b : Buffer) → 1000 ≤ n → n < 2 ^ 31 → number n b ≡ fault
unfolding number
number-overflow n b h small =
    let (t, len, done, _, _, _) = itoa-value n b (omega arith) in rw (done, le→ltb n 1000 h) refl

-- The two characters that are shown of `n`.
abbrev shows : Buffer → ℕ → Bool
shows b n = elim (number n b) [
  | ok t ↦
      ((if leb 10 n then t 0 else b'0') == n / 10 + b'0')
      && ((if leb 10 n then t 1 else t 0) == n % 10 + b'0')
  | fault ↦ false
  | out_of_fuel ↦ false
]

number-shows : (b : Buffer) (n : ℕ) → n < 100 → shows b n ≡ true
unfolding tested_below number itoa itoa_pos digits_loop swap_loop
number-shows b n h = tested_below_at 100 (shows b) n refl h

number-digits :
    (b : Buffer) (n : ℕ)
    → n < 100
    → (t : Buffer) × (number n b ≡ ok t)
      × ((if leb 10 n then t 0 else b'0') ≡ n / 10 + b'0')
      × ((if leb 10 n then t 1 else t 0) ≡ n % 10 + b'0')
number-digits b n h =
    let (t, done) = number_lem n b (omega arith) in
    let both = rw (done, shows) at (number-shows b n h) in (t, done, ground arith, ground arith)

abbrev pub digit : ℕ → ℕ
digit n = cell (n + b'0')

-- The five cells from 70 on: the minutes and the seconds, with two digits each and a colon between.
pub record Shown (c : Clock) (cells : ℕ → ℕ) : Type 0 where
  pub tens_of_minutes : cells 70 ≡ digit (c.mins / 10)
  pub minutes : cells 71 ≡ digit (c.mins % 10)
  pub colon : cells 72 ≡ cell b':'
  pub tens_of_seconds : cells 73 ≡ digit (c.segs / 10)
  pub seconds : cells 74 ≡ digit (c.segs % 10)

-- What the eighteenth tick of a second writes.
abbrev pub painted : ℕ → ℕ → Buffer → Buffer → (ℕ → ℕ) → ℕ → ℕ
painted mins segs text text' cells =
    two_digits 73 segs text' (update (two_digits 70 mins text cells) 72 (cell b':'))

pub painted_frame :
    (mins segs : ℕ) (text text' : Buffer) (cells : ℕ → ℕ) (i : ℕ)
    → (i < 70) ⊎ (74 < i)
    → painted mins segs text text' cells i ≡ cells i
unfolding two_digits
painted_frame mins segs text text' cells i away = ground arith

pub painted-Shown :
    (c : Clock) (cmins csegs text text' : Buffer) (cells : ℕ → ℕ)
    → c.mins < 100
    → c.segs < 60
    → number c.mins cmins ≡ ok text
    → number c.segs csegs ≡ ok text'
    → Shown c (painted c.mins c.segs text text' cells)
unfolding two_digits
painted-Shown c cmins csegs text text' cells few small done done' =
    let (t, e, m1, m0) = number-digits cmins c.mins few in
    let (t', e', s1, s0) = number-digits csegs c.segs (omega arith) in
    let same : t ≡ text = ok-injective (sym e ∙ done) in
    let same' : t' ≡ text' = ok-injective (sym e' ∙ done') in
    subst (λ x. Shown c (painted c.mins c.segs x text' cells)) same
      (subst (λ x. Shown c (painted c.mins c.segs t x cells)) same'
        (record {
          tens_of_minutes = ap cell m1;
          minutes = ap cell m0;
          colon = refl;
          tens_of_seconds = ap cell s1;
          seconds = ap cell s0;
        }))
