-- ===== src/Ide/Binary.antt =====
-- `tobinary` of disk-driver/ide.c.
use ze_os_filesystem.Base.{
  ℕ, zero, suc, ◌+◌, ◌-◌, ◌*◌, ◌≤◌, ◌<◌, ◌≡◌, refl, true, false, Bool, ◌&&◌, ◌||◌, ◌==◌, ==_iff,
  tested_below, tested_below_at, arith, ◌/◌, ◌∙◌, update, update_other, Bool-cases, inl, inr, ◌⊎◌,
}
use ze_os_filesystem.Ide.{Buffer, tobinary, tobinary_loop}

-- The number that the first `n` binary digits of a text stand for.
abbrev pub binary_value : ℕ → Buffer → ℕ
binary_value zero t = 0
binary_value (suc n) t = binary_value n t * 2 + (t n - b'0')

abbrev all_binary : ℕ → Buffer → Bool
all_binary zero t = true
all_binary (suc n) t = ((t n == b'0') || (t n == b'1')) && all_binary n t

abbrev writes : Buffer → ℕ → Bool
writes tmp b =
    (binary_value 8 (tobinary b tmp) == b)
    && (all_binary 8 (tobinary b tmp) && (tobinary b tmp 8 == 0))

table : (tmp : Buffer) (b : ℕ) → b < 256 → writes tmp b ≡ true
unfolding tested_below tobinary tobinary_loop
table tmp b h = tested_below_at 256 (writes tmp) b refl h

all_binary_at :
    (n : ℕ) (t : Buffer)
    → all_binary n t ≡ true
    → (i : ℕ) → i < n
    → ((t i == b'0') || (t i == b'1')) ≡ true
all_binary_at zero t h i lt = absurd (omega arith)
all_binary_at (suc n) t h i lt = elim (Bool-cases (i == n)) [
  | inl last ↦ let e : i ≡ n = (==_iff i n).0 last in rw e (ground arith)
  | inr other ↦ all_binary_at n t (ground arith) i (ground arith)
]

tobinary_loop-frame : (i b : ℕ) (t : Buffer) (j : ℕ) → i ≤ j → tobinary_loop i b t j ≡ t j
unfolding tobinary_loop
tobinary_loop-frame zero b t j h = refl
tobinary_loop-frame (suc i) b t j h =
    tobinary_loop-frame i (b / 2) _ j (omega arith) ∙ update_other t i _ j (omega arith)

digit : (c : ℕ) → ((c == b'0') || (c == b'1')) ≡ true → (c ≡ b'0') ⊎ (c ≡ b'1')
digit c h = elim (Bool-cases (c == b'0')) [
  | inl none ↦ inl ((==_iff c b'0').0 none)
  | inr some ↦ inr (ground arith)
]

tobinary-frame : (b : ℕ) (tmp : Buffer) (j : ℕ) → 8 < j → tobinary b tmp j ≡ tmp j
unfolding tobinary
tobinary-frame b tmp j far =
    tobinary_loop-frame 8 b (update tmp 8 0) j (omega arith) ∙ update_other tmp 8 0 j (omega arith)

both : (a b : Bool) → (a && b) ≡ true → (a ≡ true) × (b ≡ true)
both true b h = (refl, h)
both false b h = cc

-- For a byte: `tobinary` leaves eight characters `0` or `1` that stand for it, closed by 0, and writes
-- nothing behind them.
pub tobinary-value :
    (b : ℕ) (tmp : Buffer)
    → b < 256
    → (binary_value 8 (tobinary b tmp) ≡ b)
      × ((i : ℕ) → i < 8 → (tobinary b tmp i ≡ b'0') ⊎ (tobinary b tmp i ≡ b'1'))
      × (tobinary b tmp 8 ≡ 0)
      × ((j : ℕ) → 8 < j → tobinary b tmp j ≡ tmp j)
tobinary-value b tmp small =
    let t = tobinary b tmp in
    let (h, rest) =
      both (binary_value 8 t == b) (all_binary 8 t && (t 8 == 0)) (table tmp b small) in
    let (digits, closed) = both (all_binary 8 t) (t 8 == 0) rest in
    (
      (==_iff (binary_value 8 t) b).0 h,
      (λ i lt. digit (t i) (all_binary_at 8 t digits i lt)),
      (==_iff (t 8) 0).0 closed,
      (λ j far. tobinary-frame b tmp j far),
    )
