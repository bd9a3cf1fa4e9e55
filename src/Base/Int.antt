-- ===== src/Base/Int.antt =====
-- The C `int`, read as the integer that it stands for. A result outside the range of an `int` is
-- undefined behaviour.
use Prim.Native.Nat.{ℕ, zero, suc, ◌+◌, ◌-◌, ◌^◌}
use Prim.Native.Nat.{◌<◌}
use mathlib.Core.Path.{◌≡◌}
use mathlib.Core.Bool.{Bool, false}
use native.Mathlib.Omega.{arith}
use ze_os_filesystem.Base.Tests.{ltb, leb, ◌==◌, if◌then◌else◌}
use ze_os_filesystem.Base.Outcome.{Result, ok, fault}

-- `negsuc n` is -(n + 1).
pub data ℤ : Type 0 where
  pos : ℕ → ℤ
  negsuc : ℕ → ℤ

abbrev pub pos_part : ℤ → ℕ
pos_part (pos n) = n
pos_part (negsuc n) = 0

abbrev pub neg_part : ℤ → ℕ
neg_part (pos n) = 0
neg_part (negsuc n) = suc n

abbrev pub sub_ℕ : ℕ → ℕ → ℤ
sub_ℕ a b = if leb b a then pos (a - b) else negsuc (b - a - 1)

-- `-e` for an error number `e`.
abbrev pub neg : ℕ → ℤ
neg zero = pos 0
neg (suc n) = negsuc n

infixl 65 ◌+ℤ◌
unfoldable pub ◌+ℤ◌ : ℤ → ℤ → ℤ
a +ℤ b = sub_ℕ (pos_part a + pos_part b) (neg_part a + neg_part b)

abbrev pub ltb_ℤ : ℤ → ℤ → Bool
ltb_ℤ a b = ltb (pos_part a + neg_part b) (pos_part b + neg_part a)

abbrev pub eq_ℤ : ℤ → ℤ → Bool
eq_ℤ (pos a) (pos b) = a == b
eq_ℤ (negsuc a) (negsuc b) = a == b
eq_ℤ _ _ = false

-- An `unsigned` as an `int`.
abbrev pub as_int : ℕ → ℤ
as_int n = if ltb n (2 ^ 31) then pos n else neg (2 ^ 32 - n)

-- Whether the integer is an `int`.
abbrev pub fits_int : ℤ → Bool
fits_int (pos n) = ltb n (2 ^ 31)
fits_int (negsuc n) = ltb n (2 ^ 31)

unfoldable pub add_int : ℤ → ℤ → Result ℤ
unfolding ◌+ℤ◌
add_int a b = let c = a +ℤ b in if fits_int c then ok c else fault

pub add_int-pos : (a b : ℕ) → a + b < 2 ^ 31 → add_int (pos a) (pos b) ≡ ok (pos (a + b))
unfolding add_int ◌+ℤ◌
add_int-pos a b h = ground arith

pub add_int-negsuc :
    (a b : ℕ) → b < a → a < 2 ^ 31 → add_int (pos a) (negsuc b) ≡ ok (pos (a - suc b))
unfolding add_int ◌+ℤ◌
add_int-negsuc a b h p = ground arith
