-- ===== src/Mm/Frames.antt =====
-- The frames that `alloc_frame` and `free_frame` of zeos_full/mm.c hand out and take back.
use ze_os_filesystem.Base.{
  ℕ, zero, suc, ◌+◌, ◌-◌, ◌*◌, ◌%◌, ◌≤◌, ◌<◌, ◌≡◌, ◌≢◌, refl, ◌⊎◌, inl, inr, false, sym, ap, ◌∙◌,
  subst, ◌&&◌, ◌==◌, if◌then◌else◌, Option, none, some, arith, update, Bool-cases,
}
use ze_os_filesystem.Mm.{
  PhysMem, num_pag_kernel, free_byte, used_byte, find_frame, alloc_frame, free_frame,
}

-- Frame `j` is the first free one among those that `alloc_frame` looks at.
pub record FirstEven (m : PhysMem) (i n j : ℕ) : Type 0 where
  pub even : (j - i) % 2 ≡ 0
  pub from : i ≤ j
  pub within : j < i + 2 * n
  pub free : m j ≡ free_byte
  pub first : (k : ℕ) → i ≤ k → k < j → (k - i) % 2 ≡ 0 → m k ≢ free_byte

abbrev pub NoneEven : PhysMem → ℕ → ℕ → Type 0
NoneEven m i n = (k : ℕ) → i ≤ k → k < i + 2 * n → (k - i) % 2 ≡ 0 → m k ≢ free_byte

used_even :
    (m : PhysMem) (i k : ℕ)
    → (m i == free_byte) ≡ false
    → i ≤ k
    → (k - i) % 2 ≡ 0
    → (i + 2 ≤ k → (k - (i + 2)) % 2 ≡ 0 → m k ≢ free_byte)
    → m k ≢ free_byte
used_even m i k miss p even rest = elim (Bool-cases (k == i)) [
  | inl same ↦ let e : k ≡ i = ground arith in rw e (ground arith)
  | inr other ↦ rest (ground arith) (ground arith)
]

find_frame_cases :
    (m : PhysMem) (n i : ℕ)
    → ((j : ℕ) × (find_frame m n i ≡ some j) × FirstEven m i n j)
      ⊎ ((find_frame m n i ≡ none) × NoneEven m i n)
unfolding find_frame
find_frame_cases m zero i = inr (refl, λ k p q even. absurd (omega arith))
find_frame_cases m (suc n) i = elim (Bool-cases (m i == free_byte)) [
  | inl hit ↦ inl (
    i,
    rw hit refl,
    record {
      even = omega arith;
      from = omega arith;
      within = omega arith;
      free = ground arith;
      first = λ k p q. absurd (omega arith);
    },
  )
  | inr miss ↦ elim (find_frame_cases m n (i + 2)) [
    | inl (j, e, f) ↦ inl (
      j,
      rw miss e,
      record {
        even = omega (arith, f.from, f.even);
        from = omega (arith, f.from);
        within = omega (arith, f.within);
        free = f.free;
        first = λ k p q even. used_even m i k miss p even (λ r s. f.first k r q s);
      },
    )
    | inr (e, f) ↦
        inr (rw miss e, λ k p q even. used_even m i k miss p even (λ r s. f k r (omega arith) s))
  ]
]

-- `alloc_frame` takes the first free frame at an even distance from the kernel's, marks it as used
-- and changes nothing else, or fails, without a change, exactly where no such frame is free.
pub alloc_frame_lem :
    (m : PhysMem)
    → ((j : ℕ) × (alloc_frame m ≡ (some j, update m j used_byte))
        × FirstEven m num_pag_kernel 384 j)
      ⊎ ((alloc_frame m ≡ (none, m)) × NoneEven m num_pag_kernel 384)
unfolding alloc_frame
alloc_frame_lem m = elim (find_frame_cases m 384 num_pag_kernel) [
  | inl (j, e, f) ↦ inl (j, rw (e, alloc_frame) refl, f)
  | inr (e, f) ↦ inr (rw (e, alloc_frame) refl, f)
]

restored :
    (m : PhysMem) (j k : ℕ)
    → FirstEven m num_pag_kernel 384 j
    → free_frame j (update m j used_byte) k ≡ (if (j == 256) && (k == 256) then used_byte else m k)
unfolding free_frame
restored m j k f = elim (Bool-cases (k == j)) [
  | inl here ↦ let same : k ≡ j = ground arith in rw same (ground (arith, f.from, f.within, f.free))
  | inr other ↦ ground (arith, f.from, f.within)
]

-- Given a frame that `alloc_frame` has taken: `free_frame` restores the map, unless it is
-- frame 256, the first one behind the kernel's, which stays used.
pub free_frame-alloc_frame :
    (m : PhysMem) (j k : ℕ)
    → (alloc_frame m).0 ≡ some j
    → free_frame j ((alloc_frame m).1) k ≡ (if (j == 256) && (k == 256) then used_byte else m k)
free_frame-alloc_frame m j k h = elim (alloc_frame_lem m) [
  | inl (i, e, f) ↦
      let same : i ≡ j = (let both = sym (ap (λ (p : Option ℕ × PhysMem). p.0) e) ∙ h in cc) in
      ap (λ (p : Option ℕ × PhysMem). free_frame j p.1 k) e
      ∙ subst
          (λ x.
            free_frame x (update m i used_byte) k
            ≡ (if (x == 256) && (k == 256) then used_byte else m k))
          same (restored m i k f)
  | inr (e, none_free) ↦ absurd (let never = sym (ap (λ (p : Option ℕ × PhysMem). p.0) e) ∙ h in cc)
]
