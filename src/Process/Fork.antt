-- ===== src/Process/Fork.antt =====
-- `sys_fork` of zeos_full/sys.c: what the child inherits, and what the father keeps.
use ze_os_filesystem.Base.{
  ℕ, zero, suc, ◌+◌, ◌%◌, ◌^◌, ◌≤◌, ◌<◌, ◌≡◌, ◌≢◌, refl, inl, inr, ◌==◌, ==_iff, if◌then◌else◌,
  if_true, leb, ltb, ◌&&◌, List, [], ◌∷◌, ◌++◌, ◌∉◌, has, All, Distinct, length, Option, some,
  update, update_self, update_other, Bool-cases, Result, ok, ap, ap₂, sym, subst, ◌∙◌, arith,
}
use ze_os_filesystem.Base.Int.{as_int, ℤ, pos}
use ze_os_filesystem.Utils.{num_pag_data}
use ze_os_filesystem.Sched.{Scheduler, list_del, remove, nr_tasks, free_dir, allocate_dir}
use ze_os_filesystem.Mm.{
  PhysMem, PageTable, PageTableEntry, free_byte, used_byte, get_frame, first_data_page,
}
use ze_os_filesystem.Process.{
  Processes, scheduler, take_frames, share_entries, copy_task, give_dir, with_dir, fill_child,
  fork_task, fork_first, inherit, start_child, set_scheduler, sys_fork,
}
use ze_os_filesystem.Process.Frames.{
  Fresh, Fresh-free, Fresh-Distinct, take_frames-Fresh, Copied, Copied-source,
}
use ze_os_filesystem.Process.Copy.{
  copy_pages-Copied, copy_pages-father, copy_pages-child, copy_pages-words, words,
}

-- The pages that the processes share: those of the kernel and of the code.
abbrev pub shared_pages : ℕ
shared_pages = 264

merge :
    (n i k : ℕ) (from to : PageTable)
    → (if leb (i + 1) k && ltb k (i + 1 + n) then from k else update to i (from i) k)
      ≡ (if leb i k && ltb k (i + suc n) then from k else to k)
merge n i k from to = elim (Bool-cases (k == i)) [
  | inl here ↦ let e : k ≡ i = (==_iff k i).0 here in rw e (ground arith)
  | inr away ↦ ground arith
]

small-frames : (m : PhysMem) (fs : List ℕ) → Fresh m fs → All (λ f. f < 2 ^ 20) fs
small-frames m [] fresh = tt
small-frames m (f ∷ fs) fresh =
    (omega (arith, fresh.1), small-frames (update m f used_byte) fs fresh.2)

module _ (child father : ℕ) (apart : child ≢ father) where
  share-father :
      (n i : ℕ) (tables : ℕ → PageTable)
      → share_entries n i child father tables father ≡ tables father
  unfolding share_entries
  share-father zero i tables = refl
  share-father (suc n) i tables =
      share-father n (i + 1) _ ∙ update_other tables child _ father (λ e. apart (sym e))

  share-child :
      (n i : ℕ) (tables : ℕ → PageTable) (k : ℕ)
      → share_entries n i child father tables child k
        ≡ (if leb i k && ltb k (i + n) then tables father k else tables child k)
  unfolding share_entries
  share-child zero i tables k = ground arith
  share-child (suc n) i tables k =
      let t1 = update tables child (update (tables child) i (tables father i)) in
      let old =
        ap (λ (t : PageTable). t k)
          (update_other tables child (update (tables child) i (tables father i)) father
            (λ e. apart (sym e))) in
      let new =
        ap (λ (t : PageTable). t k)
          (update_self tables child (update (tables child) i (tables father i))) in
      share-child n (i + 1) t1 k
      ∙ ap₂ {A = PageTableEntry} {B = PageTableEntry} {C = PageTableEntry}
          (λ x y. if leb (i + 1) k && ltb k (i + 1 + n) then x else y) old new
      ∙ merge n i k (tables father) (tables child)

  -- What the child has and the father keeps.
  pub record Inherited (frames : List ℕ) (tables tables' : ℕ → PageTable) (pages pages' : ℕ → ℕ → ℕ)
      : Type 0 where
    pub shared : (k : ℕ) → k < shared_pages → tables' child k ≡ tables father k
    pub own :
        Copied frames first_data_page child (words child father apart tables pages) tables' pages'
    pub kept : (k : ℕ) → k < first_data_page + num_pag_data → tables' father k ≡ tables father k
    pub words_kept : (g : ℕ) → g ∉ frames → pages' g ≡ pages g

  inherit-Inherited :
      (frames : List ℕ) (s : Processes)
      → All (λ f. f < 2 ^ 20) frames
      → length frames ≤ num_pag_data
      → Distinct frames
      → ((k : ℕ)
          → first_data_page ≤ k
          → k < first_data_page + length frames
          → get_frame (s.tables father) k ∉ frames)
      → Inherited frames s.tables
          (inherit frames child father s).tables
          s.pages
          (inherit frames child father s).pages
  unfolding inherit get_frame
  inherit-Inherited frames s small few once away =
      let t1 = share_entries 264 0 child father s.tables in
      let same = share-father 264 0 s.tables in
      record {
        shared = λ k h.
            copy_pages-child child father apart frames 264 t1 s.pages k small h
            ∙ share-child 264 0 s.tables k
            ∙ if_true {b = leb 0 k && ltb k (0 + 264)} (s.tables father k) (s.tables child k)
                (ground arith);
        own =
            Copied-source frames 264 child (words child father apart t1 s.pages)
              (words child father apart s.tables s.pages) _ _
              (λ k p q. ap (λ (t : PageTable). s.pages (get_frame t k)) same)
              (copy_pages-Copied child father apart frames 264 t1 s.pages small few once (λ k p q.
                subst (λ (t : PageTable). get_frame t k ∉ frames) (sym same) (away k p q)));
        kept = λ k h.
            copy_pages-father child father apart frames 264 t1 s.pages k small h
            ∙ ap (λ (t : PageTable). t k) same;
        words_kept = λ g out. copy_pages-words child father apart frames 264 t1 s.pages g small out;
      }

allocate_dir-some :
    (q : ℕ) (sched : Scheduler)
    → free_dir sched.dir_usage nr_tasks 0 ≡ some q
    → allocate_dir sched ≡ (some q, record sched { dir_usage = update sched.dir_usage q (pos 1) })
unfolding allocate_dir
allocate_dir-some q sched found = rw (found, allocate_dir) refl

-- The state once the child has its directory.
abbrev prepared : ℕ → ℕ → ℕ → Processes → Processes
prepared c t q s =
    let s1 =
      set_scheduler (list_del c (scheduler s))
        (record s { phys_mem = (take_frames num_pag_data [] s.phys_mem).1 }) in
    let s2 = copy_task t c s1 in
    let sched = scheduler s2 in
    with_dir c (some q, record sched { dir_usage = update sched.dir_usage q (pos 1) }) s2

pair-lem : (p : Option (List ℕ) × PhysMem) (v : List ℕ) → p.0 ≡ some v → p ≡ (some v, p.1)
pair-lem (o, m) v e = ap (λ x. (x, m)) e

-- Let task `t` run with directory `p`, task `c` be the first free one, `q` the first directory that no
-- one uses, and 20 frames be free, which none of the father's pages of data is. Then `sys_fork`
-- returns the next process number, which is one more modulo 2 ^ 32, as an `int`. The child has
-- directory `q`, and the father keeps `p`. The child's table has the father's entries for the pages
-- of the kernel and the code, and leads each page of data to a frame of its own with the words of the
-- father's. The father's entries for these pages and the words of every other frame are as before.
-- The child has the father's channels, and is the last of the ready tasks.
pub sys_fork-Inherited :
    (ret_from_fork ticks ticks' c t p q : ℕ) (rest v : List ℕ) (s : Processes) (apart : q ≢ p)
    → (scheduler s).freequeue ≡ c ∷ rest
    → (scheduler s).current ≡ t
    → c ≢ t
    → s.dir t ≡ some p
    → free_dir (scheduler s).dir_usage nr_tasks 0 ≡ some q
    → (take_frames num_pag_data [] s.phys_mem).0 ≡ some v
    → ((k : ℕ)
        → first_data_page ≤ k
        → k < first_data_page + num_pag_data
        → s.phys_mem (get_frame (s.tables p) k) ≢ free_byte)
    → (s' : Processes) × (sys_fork ret_from_fork ticks ticks' s
        ≡ ok (as_int (((scheduler s).next_pid + 1) % 2 ^ 32), s'))
      × Inherited q p apart v s.tables s'.tables s.pages s'.pages
      × (s'.dir c ≡ some q)
      × (s'.dir t ≡ some p)
      × (s'.channels c ≡ s.channels t)
      × ((scheduler s').readyqueue ≡ remove c (scheduler s).readyqueue ++ c ∷ [])
unfolding sys_fork start_child copy_task inherit give_dir
sys_fork-Inherited ret ticks ticks' c t p q rest v s apart free now other has_dir found taken used =
    let (fs, split, size, fresh) = take_frames-Fresh num_pag_data [] v s.phys_mem taken in
    let frames : Fresh s.phys_mem v = rw split fresh in
    let s1 =
      set_scheduler (list_del c (scheduler s))
        (record s { phys_mem = (take_frames num_pag_data [] s.phys_mem).1 }) in
    let s2 = prepared c t q s in
    let child_dir : s2.dir c ≡ some q = update_self (update s.dir c (s.dir t)) c (some q) in
    let father_dir : s2.dir t ≡ some p =
      update_other (update s.dir c (s.dir t)) c (some q) t (λ e. other (sym e))
      ∙ update_other s.dir c (s.dir t) t (λ e. other (sym e))
      ∙ has_dir in
    (
      (start_child ret ticks ticks' c (inherit v q p s2)).1,
      ap (λ l. fork_first ret ticks ticks' l s) free
          ∙ ap (λ r. fork_task ret ticks ticks' c r s)
              (pair-lem (take_frames num_pag_data [] s.phys_mem) v taken)
          ∙ ap
              (λ cur.
                let r = give_dir c (copy_task cur c s1) in
                fill_child ret ticks ticks' c v (r.dir c) (r.dir cur) r)
              now
          ∙ ap {A = Option ℕ × Scheduler} {B = Result (ℤ × Processes)}
              (λ d.
                let r = with_dir c d (copy_task t c s1) in
                fill_child ret ticks ticks' c v (r.dir c) (r.dir t) r)
              (allocate_dir-some q (scheduler (copy_task t c s1)) found)
          ∙ ap₂ (λ x y. fill_child ret ticks ticks' c v x y s2) child_dir father_dir,
      inherit-Inherited q p apart v s2 (small-frames s.phys_mem v frames) (rw split (omega arith))
          (Fresh-Distinct s.phys_mem v frames)
          (λ k lo hi. elim (Bool-cases (has (get_frame (s.tables p) k) v)) [
            | inl taken' ↦ absurd (
                used k lo (omega (arith, hi, size, ap (λ (l : List ℕ). length l) split))
                  (Fresh-free s.phys_mem v (get_frame (s.tables p) k) frames taken'))
            | inr away ↦ away
          ]),
      child_dir,
      father_dir,
      update_self s.channels c (s.channels t),
      refl,
    )
