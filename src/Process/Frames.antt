-- ===== src/Process/Frames.antt =====
-- The frames that `sys_fork` of zeos_full/sys.c takes, and the pages that it copies into them.
use ze_os_filesystem.Base.{
  ℕ, zero, suc, ◌+◌, ◌%◌, ◌^◌, ◌≤◌, ◌<◌, ◌≡◌, ◌≢◌, refl, inl, inr, ◌==◌, ==_iff, ==_self, ==_ne,
  if◌then◌else◌, List, [], ◌∷◌, ◌++◌, ◌∈◌, has, Distinct, length, append_assoc, append-nil, Option,
  none, some, update, update_self, update_other, Bool-cases, ap, sym, ◌∙◌, arith,
}
use ze_os_filesystem.Mm.{
  PhysMem, PageTable, PageTableEntry, no_entry, free_byte, used_byte, alloc_frame, set_ss_pag,
  del_ss_pag,
}
use ze_os_filesystem.Mm.Frames.{alloc_frame_lem}
use ze_os_filesystem.Utils.{num_pag_data}
use ze_os_filesystem.Process.{take_frames, free_all}

-- The frames, in order, are free in the map when each is taken.
abbrev pub Fresh : PhysMem → List ℕ → Type 0
Fresh m [] = Unit
Fresh m (f ∷ fs) = (m f ≡ free_byte) × (f < 1024) × Fresh (update m f used_byte) fs

pub Fresh-free : (m : PhysMem) (fs : List ℕ) (f : ℕ) → Fresh m fs → f ∈ fs → m f ≡ free_byte
Fresh-free m [] f fresh h = cc
Fresh-free m (g ∷ fs) f fresh h = elim (Bool-cases (f == g)) [
  | inl same ↦ let e : f ≡ g = (==_iff f g).0 same in rw e fresh.0
  | inr other ↦
      let before = Fresh-free (update m g used_byte) fs f fresh.2 (ground arith) in
      sym (update_other m g used_byte f (ground arith)) ∙ before
]

pub Fresh-Distinct : (m : PhysMem) (fs : List ℕ) → Fresh m fs → Distinct fs
Fresh-Distinct m [] fresh = tt
Fresh-Distinct m (f ∷ fs) fresh = (
  (elim (Bool-cases (has f fs)) [
    | inl again ↦
        let used = Fresh-free (update m f used_byte) fs f fresh.2 again in
        absurd (omega (arith, sym (update_self m f used_byte) ∙ used))
    | inr away ↦ away
  ]),
  Fresh-Distinct (update m f used_byte) fs fresh.2,
)

abbrev take_next : ℕ → List ℕ → Option ℕ × PhysMem → Option (List ℕ) × PhysMem
take_next n taken (none, m) = (none, free_all taken m)
take_next n taken (some f, m) = take_frames n (taken ++ f ∷ []) m

take_next_lem :
    (n : ℕ) (taken : List ℕ) (p : Option ℕ × PhysMem)
    → (elim p.0 as (λ _. Option (List ℕ) × PhysMem) [
      | none ↦ (none, free_all taken p.1)
      | some f ↦ take_frames n (taken ++ f ∷ []) p.1
    ])
      ≡ take_next n taken p
take_next_lem n taken (none, m) = refl
take_next_lem n taken (some f, m) = refl

take_frames-suc :
    (n : ℕ) (taken : List ℕ) (m : PhysMem)
    → take_frames (suc n) taken m ≡ take_next n taken (alloc_frame m)
unfolding take_frames
take_frames-suc n taken m = take_next_lem n taken (alloc_frame m)

some-injective : {a b : List ℕ} → some a ≡ some b → b ≡ a
some-injective h = cc

never : {A : Type 0} {v : List ℕ} → ◌≡◌ {A = Option (List ℕ)} none (some v) → A
never h = cc

pub take_frames-Fresh :
    (n : ℕ) (taken v : List ℕ) (m : PhysMem)
    → (take_frames n taken m).0 ≡ some v
    → (fs : List ℕ) × (v ≡ taken ++ fs) × (length fs ≡ n) × Fresh m fs
unfolding take_frames
take_frames-Fresh zero taken v m h = ([], some-injective h ∙ sym (append-nil taken), refl, tt)
take_frames-Fresh (suc n) taken v m h = elim (alloc_frame_lem m) [
  | inl (j, e, f) ↦
      let next = take_frames-suc n taken m ∙ ap (take_next n taken) e in
      let (fs, split, size, fresh) =
        take_frames-Fresh n (taken ++ j ∷ []) v (update m j used_byte)
          (sym (ap (λ (r : Option (List ℕ) × PhysMem). r.0) next) ∙ h) in
      (
        j ∷ fs,
        split ∙ append_assoc taken (j ∷ []) fs,
        ap suc size,
        (f.free, omega (arith, f.within), fresh),
      )
  | inr (e, full) ↦
      let next = take_frames-suc n taken m ∙ ap (take_next n taken) e in
      never (sym (ap (λ (r : Option (List ℕ) × PhysMem). r.0) next) ∙ h)
]

-- What `set_ss_pag` writes.
abbrev pub data_entry : ℕ → PageTableEntry
data_entry frame = record no_entry {
  pbase_addr = frame % 2 ^ 20;
  user = 1;
  rw_bit = 1;
  present = 1;
}

-- From page `i` on the child's entries lead to the frames, and those hold the words of `source`.
abbrev pub Copied : List ℕ → ℕ → ℕ → (ℕ → ℕ → ℕ) → (ℕ → PageTable) → (ℕ → ℕ → ℕ) → Type 0
Copied [] i child source tables pages = Unit
Copied (f ∷ fs) i child source tables pages =
    (tables child i ≡ data_entry f)
    × (pages f ≡ source i)
    × Copied fs (i + 1) child source tables pages

pub Copied-source :
    (fs : List ℕ) (i child : ℕ) (source source' : ℕ → ℕ → ℕ) (tables : ℕ → PageTable)
    (pages : ℕ → ℕ → ℕ)
    → ((k : ℕ) → i ≤ k → k < i + length fs → source k ≡ source' k)
    → Copied fs i child source tables pages
    → Copied fs i child source' tables pages
Copied-source [] i child source source' tables pages same c = tt
Copied-source (f ∷ fs) i child source source' tables pages same c = (
  c.0,
  c.1 ∙ same i (omega arith) (omega arith),
  Copied-source fs (i + 1) child source source' tables pages
      (λ k p q. same k (omega arith) (omega arith)) c.2,
)

module _ (child father : ℕ) (apart : child ≢ father) where
  -- One round: the tables and the words after it.
  abbrev pub round_tables : ℕ → ℕ → (ℕ → PageTable) → ℕ → PageTable
  round_tables f i tables =
      let t1 = update tables child (set_ss_pag (tables child) i f) in
      let t2 = update t1 father (set_ss_pag (t1 father) (i + num_pag_data) f) in
      update t2 father (del_ss_pag (t2 father) (i + num_pag_data))

  pub round-father :
      (f i : ℕ) (tables : ℕ → PageTable) (k : ℕ)
      → k ≢ i + num_pag_data
      → round_tables f i tables father k ≡ tables father k
  unfolding set_ss_pag del_ss_pag
  round-father f i tables k h =
      rw (==_self father, ==_ne father child (λ e. apart (sym e)), ==_ne k (i + num_pag_data) h)
        refl

  pub round-child :
      (f i : ℕ) (tables : ℕ → PageTable) (k : ℕ)
      → round_tables f i tables child k ≡ (if k == i then data_entry f else tables child k)
  unfolding set_ss_pag del_ss_pag
  round-child f i tables k = rw (==_ne child father apart, ==_self child) refl

  round-other :
      (f i other : ℕ) (tables : ℕ → PageTable)
      → other ≢ child
      → other ≢ father
      → round_tables f i tables other ≡ tables other
  round-other f i other tables a b = rw (==_ne other child a, ==_ne other father b) refl
