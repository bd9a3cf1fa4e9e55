-- ===== src/Base/Outcome.antt =====
-- The outcome of C code: a value, undefined behaviour (`fault`), or a loop that is still running
-- when its fuel is gone.
use mathlib.Core.Path.{◌≡◌, refl, ap}
use mathlib.Core.Bool.{Bool, true, false}

pub data Result {ℓ} (A : Type ℓ) : Type ℓ where
  ok : A → Result A
  fault : Result A
  out_of_fuel : Result A

module _ {ℓ κ} {A : Type ℓ} {B : Type κ} where
  infixl 5 ◌>>=◌
  abbrev pub ◌>>=◌ : Result A → (A → Result B) → Result B
  fault >>= k = fault
  out_of_fuel >>= k = out_of_fuel
  ok x >>= k = k x

  -- A computation that succeeds has a first part that does.
  pub >>=-eq-ok :
      (r : Result A) (k : A → Result B) {v : B}
      → (r >>= k) ≡ ok v
      → (x : A) × (r ≡ ok x) × (k x ≡ ok v)
  >>=-eq-ok fault k e = cc
  >>=-eq-ok out_of_fuel k e = cc
  >>=-eq-ok (ok x) k e = (x, refl, e)

infixl 5 ◌>>◌
abbrev pub ◌>>◌ {κ} : {B : Type κ} → Result (Unit {0}) → Result B → Result B
check >> rest = check >>= λ _. rest

-- What the code relies on, such as an index within its array.
abbrev pub require : Bool → Result (Unit {0})
require false = fault
require true = ok tt

value_or {ℓ} : {A : Type ℓ} → A → Result A → A
value_or d (ok a) = a
value_or d fault = d
value_or d out_of_fuel = d

pub ok-injective {ℓ} : {A : Type ℓ} {a b : A} → ok a ≡ ok b → a ≡ b
unfolding value_or
ok-injective {a} h = ap (value_or a) h
