-- ===== src/Mm/Pages.antt =====
-- The pages that zeos_full/mm.c maps and unmaps.
use ze_os_filesystem.Base.{
  ◌≤◌, ◌<◌, ◌≢◌, ◌⊎◌, ==_iff, ==_ne, subst, sym, update, ℕ, zero, suc, ◌+◌, ◌%◌, ◌^◌, ◌≡◌, refl,
  ltb, leb, ◌&&◌, ◌==◌, if◌then◌else◌, arith, Bool-cases, inl, inr, ◌∙◌,
}
use ze_os_filesystem.Mm.{
  PageTableEntry, PageTable, PhysMem, no_entry, set_ss_pag, del_ss_pag, get_frame, unmap_data,
  free_user_pages, free_byte, free_frame,
}

-- A page that is mapped has its frame, modulo 2 ^ 20, and is gone once it is unmapped; neither
-- changes what any other page has.
pub get_frame-set_ss_pag :
    (table : PageTable) (page frame other : ℕ)
    → (get_frame (set_ss_pag table page frame) other
        ≡ (if other == page then frame % 2 ^ 20 else get_frame table other))
      × (del_ss_pag (set_ss_pag table page frame) page other
          ≡ (if other == page then no_entry else table other))
unfolding get_frame set_ss_pag del_ss_pag
get_frame-set_ss_pag table page frame other = elim (Bool-cases (other == page)) [
  | inl same ↦ rw (same, get_frame, set_ss_pag) (refl, refl)
  | inr miss ↦ rw (miss, get_frame, set_ss_pag) (refl, refl)
]

unmap_data_lem :
    (n page k : ℕ) (table : PageTable) (m : PhysMem)
    → (unmap_data n page table m).0 k
      ≡ (if leb page k && ltb k (page + n) then no_entry else table k)
unfolding unmap_data
unmap_data_lem zero page k table m = ground arith
unmap_data_lem (suc n) page k table m = unmap_data_lem n (page + 1) k _ _ ∙ ground arith

-- `free_user_pages` clears the entries of the 20 pages of data, from 264 on, and no others.
pub free_user_pages_lem :
    (table : PageTable) (m : PhysMem) (k : ℕ)
    → (free_user_pages table m).0 k ≡ (if leb 264 k && ltb k 284 then no_entry else table k)
unfolding free_user_pages
free_user_pages_lem table m k = unmap_data_lem 20 264 k table m

-- A frame that is free stays free, and no frame of the kernel, nor the first one behind it, is freed.
unmap_data-free :
    (n page g : ℕ) (table : PageTable) (m : PhysMem)
    → m g ≡ free_byte
    → (unmap_data n page table m).1 g ≡ free_byte
unfolding unmap_data free_frame
unmap_data-free zero page g table m h = h
unmap_data-free (suc n) page g table m h =
    unmap_data-free n (page + 1) g (update table page no_entry)
      (free_frame ((table page).pbase_addr) m) (ground arith)

unmap_data-kernel :
    (n page g : ℕ) (table : PageTable) (m : PhysMem)
    → g ≤ 256
    → (unmap_data n page table m).1 g ≡ m g
unfolding unmap_data free_frame
unmap_data-kernel zero page g table m h = refl
unmap_data-kernel (suc n) page g table m h =
    unmap_data-kernel n (page + 1) g (update table page no_entry)
      (free_frame ((table page).pbase_addr) m) h
    ∙ ground arith

unmap_data-freed :
    (n page k : ℕ) (table : PageTable) (m : PhysMem)
    → page ≤ k
    → k < page + n
    → 256 < (table k).pbase_addr
    → (table k).pbase_addr < 1024
    → (unmap_data n page table m).1 ((table k).pbase_addr) ≡ free_byte
unfolding unmap_data free_frame
unmap_data-freed zero page k table m from below low high = absurd (omega arith)
unmap_data-freed (suc n) page k table m from below low high =
    let f = (table k).pbase_addr in
    let table1 = update table page no_entry in
    let m1 = free_frame ((table page).pbase_addr) m in
    elim (Bool-cases (k == page)) [
      | inl here ↦
          let same : k ≡ page = (==_iff k page).0 here in
          unmap_data-free n (page + 1) f table1 m1
            (subst (λ x. free_frame ((table x).pbase_addr) m f ≡ free_byte) same (ground arith))
      | inr later ↦
          let kept : table1 k ≡ table k = rw later refl in
          subst
            (λ (e : PageTableEntry).
              (unmap_data n (page + 1) table1 m1).1 (e.pbase_addr) ≡ free_byte)
            kept
            (unmap_data-freed n (page + 1) k table1 m1 (ground arith) (omega arith)
              (subst (λ (e : PageTableEntry). 256 < e.pbase_addr) (sym kept) low)
              (subst (λ (e : PageTableEntry). e.pbase_addr < 1024) (sym kept) high))
    ]

unmap_data-kept :
    (n page g : ℕ) (table : PageTable) (m : PhysMem)
    → ((k : ℕ) → page ≤ k → k < page + n → (table k).pbase_addr ≢ g)
    → (unmap_data n page table m).1 g ≡ m g
unfolding unmap_data free_frame
unmap_data-kept zero page g table m away = refl
unmap_data-kept (suc n) page g table m away =
    let first = away page (omega arith) (omega arith) in
    unmap_data-kept n (page + 1) g (update table page no_entry)
      (free_frame ((table page).pbase_addr) m)
      (λ k from below. rw (==_ne k page (omega arith)) (away k (omega arith) (omega arith)))
    ∙ ground arith

-- What a table and the map of frames are once the pages of data have gone back: the entries of these
-- pages are cleared, and their frames are free, but for the first frame behind the kernel's.
pub record GivenBack (table table' : PageTable) (m m' : PhysMem) : Type 0 where
  pub cleared : (k : ℕ) → 264 ≤ k → k < 284 → table' k ≡ no_entry
  pub other_entries : (k : ℕ) → (k < 264) ⊎ (284 ≤ k) → table' k ≡ table k
  pub freed :
      (k : ℕ)
      → 264 ≤ k
      → k < 284
      → 256 < get_frame table k
      → get_frame table k < 1024
      → m' (get_frame table k) ≡ free_byte
  pub other_frames : (g : ℕ) → ((k : ℕ) → 264 ≤ k → k < 284 → get_frame table k ≢ g) → m' g ≡ m g
  pub kernel_frames : (g : ℕ) → g ≤ 256 → m' g ≡ m g

pub free_user_pages-GivenBack :
    (table : PageTable) (m : PhysMem)
    → GivenBack table (free_user_pages table m).0 m (free_user_pages table m).1
unfolding free_user_pages get_frame
free_user_pages-GivenBack table m = record {
  cleared = λ k from below. let e = unmap_data_lem 20 264 k table m in ground arith;
  other_entries = λ k away. let e = unmap_data_lem 20 264 k table m in ground arith;
  freed = λ k from below low high. unmap_data-freed 20 264 k table m from below low high;
  other_frames = λ g away. unmap_data-kept 20 264 g table m away;
  kernel_frames = λ g small. unmap_data-kernel 20 264 g table m small;
}
