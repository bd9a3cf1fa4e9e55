-- ===== src/Process/Copy.antt =====
-- What the loop of `sys_fork` over the pages of data leaves.
use ze_os_filesystem.Base.{
  ℕ, ◌+◌, ◌^◌, ◌≤◌, ◌<◌, ◌≡◌, ◌≢◌, refl, ==_self, ==_ne, if_true, if_false, List, [], ◌∷◌, ◌∉◌,
  Distinct, All, length, update, update_self, update_other, ap, ap₂, sym, subst, ◌∙◌, arith,
}
use ze_os_filesystem.Mm.{PageTable, PageTableEntry, get_frame, set_ss_pag}
use ze_os_filesystem.Utils.{num_pag_data}
use ze_os_filesystem.Process.{copy_pages}
use ze_os_filesystem.Process.Frames.{
  data_entry, Copied, Copied-source, round_tables, round-father, round-child,
}

module _ (child father : ℕ) (apart : child ≢ father) where
  -- The father's table while it leads to the child's frame too.
  abbrev widened : ℕ → ℕ → (ℕ → PageTable) → PageTable
  widened f i tables =
      let t1 = update tables child (set_ss_pag (tables child) i f) in
      update t1 father (set_ss_pag (t1 father) (i + num_pag_data) f) father

  widened-away :
      (f i k : ℕ) (tables : ℕ → PageTable)
      → k ≢ i + num_pag_data
      → widened f i tables k ≡ tables father k
  unfolding set_ss_pag
  widened-away f i k tables h =
      rw (==_self father, ==_ne father child (λ e. apart (sym e)), ==_ne k (i + num_pag_data) h)
        refl

  widened-at :
      (f i : ℕ) (tables : ℕ → PageTable) → widened f i tables (i + num_pag_data) ≡ data_entry f
  unfolding set_ss_pag
  widened-at f i tables = rw (==_self father, ==_self (i + num_pag_data)) refl

  widened-from :
      (f i : ℕ) (tables : ℕ → PageTable)
      → get_frame (widened f i tables) i ≡ get_frame (tables father) i
  unfolding get_frame
  widened-from f i tables = ap PageTableEntry.pbase_addr (widened-away f i i tables (omega arith))

  widened-to :
      (f i : ℕ) (tables : ℕ → PageTable)
      → f < 2 ^ 20
      → get_frame (widened f i tables) (i + num_pag_data) ≡ f
  unfolding get_frame
  widened-to f i tables small = ap PageTableEntry.pbase_addr (widened-at f i tables) ∙ omega arith

  copy_pages-step :
      (f : ℕ) (fs : List ℕ) (i : ℕ) (tables : ℕ → PageTable) (pages : ℕ → ℕ → ℕ)
      → f < 2 ^ 20
      → copy_pages (f ∷ fs) i child father (tables, pages)
        ≡ copy_pages fs (i + 1) child father (
          round_tables child father apart f i tables,
          update pages f (pages (get_frame (tables father) i)),
        )
  unfolding copy_pages
  copy_pages-step f fs i tables pages small =
      ap₂ {A = ℕ} {B = ℕ} {C = (ℕ → PageTable) × (ℕ → ℕ → ℕ)}
        (λ to from.
          copy_pages fs (i + 1) child father
            (round_tables child father apart f i tables, update pages to (pages from)))
        (widened-to f i tables small) (widened-from f i tables)

  -- Entries below page `i` of the child, those of the father but for the window behind the data, and
  -- the words of every other frame stay.
  pub copy_pages-child :
      (fs : List ℕ) (i : ℕ) (tables : ℕ → PageTable) (pages : ℕ → ℕ → ℕ) (k : ℕ)
      → All (λ f. f < 2 ^ 20) fs
      → k < i
      → (copy_pages fs i child father (tables, pages)).0 child k ≡ tables child k
  unfolding copy_pages
  copy_pages-child [] i tables pages k small h = refl
  copy_pages-child (f ∷ fs) i tables pages k small h =
      ap (λ (r : (ℕ → PageTable) × (ℕ → ℕ → ℕ)). r.0 child k)
        (copy_pages-step f fs i tables pages small.0)
      ∙ copy_pages-child fs (i + 1) _ _ k small.1 (omega arith)
      ∙ round-child child father apart f i tables k
      ∙ if_false (data_entry f) (tables child k) (==_ne k i (omega arith))

  pub copy_pages-father :
      (fs : List ℕ) (i : ℕ) (tables : ℕ → PageTable) (pages : ℕ → ℕ → ℕ) (k : ℕ)
      → All (λ f. f < 2 ^ 20) fs
      → k < i + num_pag_data
      → (copy_pages fs i child father (tables, pages)).0 father k ≡ tables father k
  unfolding copy_pages
  copy_pages-father [] i tables pages k small h = refl
  copy_pages-father (f ∷ fs) i tables pages k small h =
      ap (λ (r : (ℕ → PageTable) × (ℕ → ℕ → ℕ)). r.0 father k)
        (copy_pages-step f fs i tables pages small.0)
      ∙ copy_pages-father fs (i + 1) _ _ k small.1 (omega arith)
      ∙ round-father child father apart f i tables k (omega arith)

  pub copy_pages-words :
      (fs : List ℕ) (i : ℕ) (tables : ℕ → PageTable) (pages : ℕ → ℕ → ℕ) (g : ℕ)
      → All (λ f. f < 2 ^ 20) fs
      → g ∉ fs
      → (copy_pages fs i child father (tables, pages)).1 g ≡ pages g
  unfolding copy_pages
  copy_pages-words [] i tables pages g small h = refl
  copy_pages-words (f ∷ fs) i tables pages g small h =
      ap (λ (r : (ℕ → PageTable) × (ℕ → ℕ → ℕ)). r.1 g)
        (copy_pages-step f fs i tables pages small.0)
      ∙ copy_pages-words fs (i + 1) _ _ g small.1 (ground arith)
      ∙ update_other pages f _ g (ground arith)

  -- The words of the father's page `k`.
  abbrev pub words : (ℕ → PageTable) → (ℕ → ℕ → ℕ) → ℕ → ℕ → ℕ
  words tables pages k = pages (get_frame (tables father) k)

  round-frame :
      (f i k : ℕ) (tables : ℕ → PageTable)
      → k ≢ i + num_pag_data
      → get_frame (round_tables child father apart f i tables father) k
        ≡ get_frame (tables father) k
  unfolding get_frame
  round-frame f i k tables h =
      ap PageTableEntry.pbase_addr (round-father child father apart f i tables k h)

  not-has-tail : (g f : ℕ) (fs : List ℕ) → g ∉ f ∷ fs → (g ≢ f) × (g ∉ fs)
  not-has-tail g f fs h = ground arith

  pub copy_pages-Copied :
      (fs : List ℕ) (i : ℕ) (tables : ℕ → PageTable) (pages : ℕ → ℕ → ℕ)
      → All (λ f. f < 2 ^ 20) fs
      → length fs ≤ num_pag_data
      → Distinct fs
      → ((k : ℕ) → i ≤ k → k < i + length fs → get_frame (tables father) k ∉ fs)
      → Copied fs i child
          (words tables pages)
          (copy_pages fs i child father (tables, pages)).0
          (copy_pages fs i child father (tables, pages)).1
  copy_pages-Copied [] i tables pages small few once away = tt
  copy_pages-Copied (f ∷ fs) i tables pages small few once away =
      let tables1 = round_tables child father apart f i tables in
      let pages1 = update pages f (words tables pages i) in
      let step = copy_pages-step f fs i tables pages small.0 in
      let frame = λ (k : ℕ) (h : k < i + 1 + length fs). round-frame f i k tables (omega arith) in
      let other = λ (k : ℕ) (p : i + 1 ≤ k) (q : k < i + 1 + length fs).
        not-has-tail (get_frame (tables father) k) f fs (away k (omega arith) (omega arith)) in
      let rest =
        copy_pages-Copied fs (i + 1) tables1 pages1 small.1 (omega arith) once.1
          (λ k p q. subst (λ g. g ∉ fs) (sym (frame k q)) (other k p q).1) in
      subst
        (λ (r : (ℕ → PageTable) × (ℕ → ℕ → ℕ)).
          Copied (f ∷ fs) i child (words tables pages) r.0 r.1)
        (sym step)
        (
          copy_pages-child fs (i + 1) tables1 pages1 i small.1 (omega arith)
              ∙ round-child child father apart f i tables i
              ∙ if_true (data_entry f) (tables child i) (==_self i),
          copy_pages-words fs (i + 1) tables1 pages1 f small.1 once.0
              ∙ update_self pages f (words tables pages i),
          Copied-source fs (i + 1) child (words tables1 pages1) (words tables pages) _ _
              (λ k p q. ap pages1 (frame k q) ∙ update_other pages f _ _ (other k p q).0) rest,
        )
