-- ===== src/Utils/Copy.antt =====
-- What `copy_data` of zeos_full/utils.c copies.
use ze_os_filesystem.Base.{
  ℕ, zero, suc, ◌+◌, ◌-◌, ◌≤◌, ◌≡◌, ◌≢◌, refl, ◌⊎◌, ◌∙◌, ap, ==_ne, ==_self, inl, inr, ltb, leb,
  ◌&&◌, ◌==◌, if◌then◌else◌, arith, update, Bool-cases,
}
use ze_os_filesystem.Fat.{Buffer}
use ze_os_filesystem.Utils.{copy_bytes, copy_word, copy_data}

-- The two ranges do not overlap, or the copy goes down.
abbrev pub Forward : ℕ → ℕ → ℕ → Type 0
Forward size p q = (q ≤ p) ⊎ (p + size ≤ q)

-- The bytes of the destination are those that the source held.
abbrev pub copied : ℕ → ℕ → ℕ → Buffer → Buffer
copied size p q memory k = if leb q k && ltb k (q + size) then memory (p + (k - q)) else memory k

copied-suc :
    (size p q : ℕ) (memory : Buffer) (k : ℕ)
    → Forward (suc size) p q
    → copied size (p + 1) (q + 1) (update memory q (memory p)) k ≡ copied (suc size) p q memory k
copied-suc size p q memory k h = elim (Bool-cases (ltb q k && ltb k (q + suc size))) [
  | inl inside ↦
      let place : p + 1 + (k - (q + 1)) ≡ p + (k - q) = ground arith in
      let apart : p + (k - q) ≢ q = ground arith in
      rw (place, ==_ne (p + (k - q)) q apart) (ground arith)
  | inr outside ↦ elim (Bool-cases (k == q)) [
    | inl here ↦
        let same : k ≡ q = ground arith in
        let first : p + (q - q) ≡ p = omega arith in rw (same, first, ==_self q) (ground arith)
    | inr other ↦ ground arith
  ]
]

copy_bytes_lem :
    (size p q : ℕ) (memory : Buffer) (k : ℕ)
    → Forward size p q
    → copy_bytes size p q memory k ≡ copied size p q memory k
unfolding copy_bytes
copy_bytes_lem zero p q memory k h = ground arith
copy_bytes_lem (suc size) p q memory k h =
    copy_bytes_lem size (p + 1) (q + 1) (update memory q (memory p)) k (omega arith)
    ∙ copied-suc size p q memory k h

at_offset : (p q k i : ℕ) (memory : Buffer) → k ≡ q + i → memory (p + (k - q)) ≡ memory (p + i)
at_offset p q k i memory e = let same : p + (k - q) ≡ p + i = omega arith in rw same refl

copy_word_lem : (p q : ℕ) (memory : Buffer) (k : ℕ) → copy_word p q memory k ≡ copied 4 p q memory k
unfolding copy_word
copy_word_lem p q memory k =
    let first : k ≡ q → memory (p + (k - q)) ≡ memory p =
      λ e. at_offset p q k 0 memory (omega arith) ∙ ap memory (omega arith) in
    let second = at_offset p q k 1 memory in
    let third = at_offset p q k 2 memory in let fourth = at_offset p q k 3 memory in ground arith

copied-word :
    (size p q : ℕ) (memory : Buffer) (k : ℕ)
    → Forward (size + 4) p q
    → copied size (p + 4) (q + 4) (copy_word p q memory) k ≡ copied (size + 4) p q memory k
copied-word size p q memory k h = elim (Bool-cases (leb (q + 4) k && ltb k (q + 4 + size))) [
  | inl inside ↦
      let place : p + 4 + (k - (q + 4)) ≡ p + (k - q) = ground arith in
      rw (place, copy_word_lem p q memory (p + (k - q))) (ground arith)
  | inr outside ↦ rw (outside, copy_word_lem p q memory k) (ground arith)
]

-- Given a destination that begins no later than the source, or behind its end: `copy_data` puts the
-- bytes that the source range held into the destination range and changes no other byte.
pub copy_data_lem :
    (size p q : ℕ) (memory : Buffer) (k : ℕ)
    → Forward size p q
    → copy_data size p q memory k ≡ copied size p q memory k
unfolding copy_data
copy_data_lem zero p q memory k h = copy_bytes_lem 0 p q memory k h
copy_data_lem (suc zero) p q memory k h = copy_bytes_lem 1 p q memory k h
copy_data_lem (suc (suc zero)) p q memory k h = copy_bytes_lem 2 p q memory k h
copy_data_lem (suc (suc (suc zero))) p q memory k h = copy_bytes_lem 3 p q memory k h
copy_data_lem (suc (suc (suc (suc zero)))) p q memory k h = copy_bytes_lem 4 p q memory k h
copy_data_lem (suc (suc (suc (suc (suc size))))) p q memory k h =
    let all : suc size + 4 ≡ suc (suc (suc (suc (suc size)))) = omega arith in
    copy_data_lem (suc size) (p + 4) (q + 4) (copy_word p q memory) k (omega arith)
    ∙ copied-word (suc size) p q memory k (omega arith)
    ∙ ap (λ (n : ℕ). copied n p q memory k) all
