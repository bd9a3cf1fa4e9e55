-- ===== src/Fat/Cluster/Chain.antt =====
-- Chains of clusters in the table.
use native.Mathlib.Numerals.{add-one}
use ze_os_filesystem.Base.{
  ℕ, zero, suc, ◌+◌, ◌≤◌, ◌<◌, ◌≡◌, refl, arith, List, [], ◌∷◌, length, update, ◌∉◌, ◌==◌,
  if◌then◌else◌, Bool-cases, inl, inr, Distinct, All,
}
use ze_os_filesystem.Fat.{fat_size}

-- From `c` the entries lead through the distinct clusters `cs` of the table to an end
-- mark, and none of them is 0.
pub data Chain (fat : ℕ → ℕ) : ℕ → List ℕ → Type 0 where
  last : {c : ℕ} → c < fat_size → 0x0FFF_FFF7 < fat c → Chain fat c (c ∷ [])
  link :
      {c d : ℕ} {cs : List ℕ}
      → c < fat_size
      → fat c ≡ d
      → 0 < d
      → c ∉ cs
      → Chain fat d cs
      → Chain fat c (c ∷ cs)

module _ {fat : ℕ → ℕ} where
  pub Chain-head : {c : ℕ} {cs : List ℕ} → Chain fat c cs → c < fat_size
  Chain-head (last h e) = h
  Chain-head (link h e live out r) = h

  pub Chain-Distinct : {c : ℕ} {cs : List ℕ} → Chain fat c cs → Distinct cs
  Chain-Distinct (last h e) = (refl, tt)
  Chain-Distinct (link h e live out r) = (out, Chain-Distinct r)

  pub Chain-All : {c : ℕ} {cs : List ℕ} → Chain fat c cs → All (λ x. x < fat_size) cs
  Chain-All (last h e) = (h, tt)
  Chain-All (link h e live out r) = (h, Chain-All r)

-- Distinct numbers below a bound are no more than the bound.
without : ℕ → List ℕ → List ℕ
without a [] = []
without a (x ∷ xs) = let rest = without a xs in if a == x then xs else x ∷ rest

module _ (a : ℕ) where
  length-without : (xs : List ℕ) → length xs ≤ length (without a xs) + 1
  unfolding without
  length-without [] = omega arith
  length-without (x ∷ xs) = ground (arith, length-without xs)

  not-mem-without : (b : ℕ) (xs : List ℕ) → b ∉ xs → b ∉ without a xs
  unfolding without
  not-mem-without b [] h = refl
  not-mem-without b (x ∷ xs) h = ground (arith, not-mem-without b xs)

  without-Distinct : (xs : List ℕ) → Distinct xs → Distinct (without a xs)
  unfolding without
  without-Distinct [] h = tt
  without-Distinct (x ∷ xs) h = ground (arith, without-Distinct xs, not-mem-without x xs)

  below : (xs : List ℕ) → a ∉ xs → All (λ x. x < a + 1) xs → All (λ x. x < a) xs
  below [] d h = tt
  below (x ∷ xs) d h = (ground arith, below xs (ground arith) h.1)

  without-All :
      (xs : List ℕ) → Distinct xs → All (λ x. x < a + 1) xs → All (λ x. x < a) (without a xs)
  unfolding without
  without-All [] d h = tt
  without-All (x ∷ xs) d h = elim (Bool-cases (a == x)) [
    | inl hit ↦ rw hit (below xs (let e : a ≡ x = ground arith in rw e d.0) h.1)
    | inr miss ↦ rw miss (ground arith, without-All xs d.1 h.1)
  ]

pub length-le_of_Distinct :
    (n : ℕ) (xs : List ℕ) → Distinct xs → All (λ x. x < n) xs → length xs ≤ n
length-le_of_Distinct zero [] d h = omega arith
length-le_of_Distinct zero (x ∷ xs) d h = absurd (omega arith)
length-le_of_Distinct (suc n) xs d h =
    let small : All (λ x. x < n + 1) xs = rw add-one h in
    omega (
      arith,
      length-without n xs,
      length-le_of_Distinct n (without n xs) (without-Distinct n xs d) (without-All n xs d small),
    )

pub length-Chain : {fat : ℕ → ℕ} {c : ℕ} {cs : List ℕ} → Chain fat c cs → length cs ≤ fat_size
length-Chain {cs} ch = length-le_of_Distinct fat_size cs (Chain-Distinct ch) (Chain-All ch)

-- A chain survives a write to an entry outside it.
pub Chain-update :
    {fat : ℕ → ℕ} (j v : ℕ) {c : ℕ} {cs : List ℕ}
    → Chain fat c cs
    → j ∉ cs
    → Chain (update fat j v) c cs
Chain-update j v (last h e) fresh = last h (ground arith)
Chain-update j v (link h e live out r) fresh =
    link h (ground arith) live out (Chain-update j v r (ground arith))
