-- ===== src/Text/Turn.antt =====
-- The loop of `itoa` that turns the digits round.
use ze_os_filesystem.Base.{
  ℕ, zero, suc, ◌+◌, ◌-◌, ◌*◌, ◌/◌, ◌≤◌, ◌≡◌, Bool, not, ◌&&◌, ◌==◌, ==_iff, leb, ltb,
  if◌then◌else◌, update, Bool-cases, inl, inr, ap, ◌∙◌, arith,
}
use ze_os_filesystem.Text.{Buffer, swap_loop}

-- The places that the rounds from `i1` on have exchanged.
abbrev swapped : ℕ → ℕ → ℕ → ℕ → Bool
swapped rounds i1 i j =
    (leb i1 j && ltb j (i - i1)) && not (leb (i1 + rounds) j && ltb j (i - i1 - rounds))

abbrev turned : ℕ → ℕ → ℕ → Buffer → Buffer
turned rounds i1 i b j = if swapped rounds i1 i j then b (i - 1 - j) else b j

turned-step :
    (rounds i1 i : ℕ) (b : Buffer)
    → 2 * (i1 + suc rounds) ≤ i
    → (j : ℕ)
    → turned rounds (i1 + 1) i (update (update b i1 (b (i - i1 - 1))) (i - i1 - 1) (b i1)) j
      ≡ turned (suc rounds) i1 i b j
turned-step rounds i1 i b h j = elim (Bool-cases (j == i1)) [
  | inl first ↦
      let e : j ≡ i1 = (==_iff j i1).0 first in
      let m : i - 1 - i1 ≡ i - i1 - 1 = omega arith in rw e (ground (arith, ap b m))
  | inr more ↦ elim (Bool-cases (j == i - i1 - 1)) [
    | inl last ↦
        let e : j ≡ i - i1 - 1 = (==_iff j (i - i1 - 1)).0 last in
        let m : i - 1 - (i - i1 - 1) ≡ i1 = omega arith in rw e (ground (arith, ap b m))
    | inr inner ↦ ground arith
  ]
]

swap_loop-turned :
    (rounds i1 i : ℕ) (b : Buffer)
    → 2 * (i1 + rounds) ≤ i
    → (j : ℕ) → swap_loop rounds i1 i b j ≡ turned rounds i1 i b j
unfolding swap_loop
swap_loop-turned zero i1 i b h j = ground arith
swap_loop-turned (suc rounds) i1 i b h j =
    swap_loop-turned rounds (i1 + 1) i _ (omega arith) j ∙ turned-step rounds i1 i b h j

-- All `i` characters are turned round, and no other changes.
pub swap_loop-reverses :
    (i : ℕ) (b : Buffer) (j : ℕ)
    → swap_loop (i / 2) 0 i b j ≡ (if ltb j i then b (i - 1 - j) else b j)
swap_loop-reverses i b j = elim (Bool-cases (i - 1 - j == j)) [
  | inl middle ↦
      let e : i - 1 - j ≡ j = (==_iff _ _).0 middle in
      swap_loop-turned (i / 2) 0 i b (omega arith) j ∙ ground (arith, ap b e)
  | inr other ↦ swap_loop-turned (i / 2) 0 i b (omega arith) j ∙ ground arith
]
