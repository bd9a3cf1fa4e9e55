-- ===== src/Process/Exit.antt =====
-- `sys_exit` of zeos_full/sys.c: when the address space goes back.
use ze_os_filesystem.Base.{
  ℕ, suc, ◌-◌, ◌^◌, ◌<◌, ◌≡◌, true, false, if◌then◌else◌, if_true, if_false, some, update,
  update_self, update_other, sym, subst, ◌≢◌, Result, ok, ◌>>=◌, ap, ◌∙◌, arith,
}
use ze_os_filesystem.Base.Int.{ℤ, pos, negsuc, eq_ℤ, add_int, add_int-negsuc}
use ze_os_filesystem.Sched.{nr_tasks}
use ze_os_filesystem.Mm.Pages.{GivenBack, free_user_pages-GivenBack}
use ze_os_filesystem.Mm.{PageTable, free_user_pages}
use ze_os_filesystem.Sem.{Semaphores, destroy_owned_sems}
use ze_os_filesystem.Process.{
  Processes, scheduler, set_dir_usage, find_dir_usage, find_dir_usage-some, release_pages, leave,
  exit_dir, sys_exit,
}

-- The rest of the call once the directory is counted.
abbrev counted : ℕ → ℕ → ℕ → ℕ → ℤ → Processes → Result Processes
counted ticks ticks' t i usage s =
    let s1 = release_pages i usage (set_dir_usage i usage s) in
    destroy_owned_sems ((scheduler s1).task t).pid s1.semaphores >>= λ sems.
    ok (leave ticks ticks' t sems s1)

-- Let task `t` run with the directory `p` of the ten, which `u + 1` tasks use, and let its semaphores
-- be destroyed without an overflow: `sys_exit` returns. While another task uses the directory, it
-- leaves all page tables and frames as they are. For the last task, it clears the entries of the 20
-- pages of data, from 264 on, of the table of `p` and no other entry of any table, and makes the
-- frames of these pages free, but for frame 256, which stays as it is, as do the frames of the
-- kernel and all that the table does not lead to from these pages.
pub sys_exit-pages :
    (ticks ticks' t p u : ℕ) (s : Processes) (sems : Semaphores)
    → (scheduler s).current ≡ t
    → s.dir t ≡ some p
    → p < nr_tasks
    → (scheduler s).dir_usage p ≡ pos (suc u)
    → suc u < 2 ^ 31
    → destroy_owned_sems ((scheduler s).task t).pid (set_dir_usage p (pos u) s).semaphores ≡ ok sems
    → (s' : Processes) × (sys_exit ticks ticks' s ≡ ok s')
      × (0 < u → (s'.tables ≡ s.tables) × (s'.phys_mem ≡ s.phys_mem))
      × (u ≡ 0
          → GivenBack (s.tables p) (s'.tables p) s.phys_mem s'.phys_mem
            × ((q : ℕ) → q ≢ p → s'.tables q ≡ s.tables q))
unfolding sys_exit
sys_exit-pages ticks ticks' t p u s sems now has_dir small used few destroyed =
    let s1 = release_pages p (pos u) (set_dir_usage p (pos u) s) in
    let one : suc u - 1 ≡ u = omega arith in
    (
      leave ticks ticks' t sems s1,
      ap (λ cur. exit_dir ticks ticks' cur (find_dir_usage cur s) s) now
          ∙ ap (λ d. exit_dir ticks ticks' t d s) (find_dir_usage-some t p s has_dir small)
          ∙ ap {A = Result ℤ} {B = Result Processes}
              (λ usage. usage >>= λ n. counted ticks ticks' t p n s)
              (ap (λ n. add_int n (negsuc 0)) used
                ∙ add_int-negsuc (suc u) 0 (omega arith) few
                ∙ ap {A = ℕ} {B = Result ℤ} (λ n. ok (pos n)) one)
          ∙ ap {A = Result Semaphores} {B = Result Processes}
              (λ r. r >>= λ sems. ok (leave ticks ticks' t sems s1)) destroyed,
      (λ more.
          let others : eq_ℤ (pos u) (pos 0) ≡ false = ground arith in
          (
            if_false (update s.tables p (free_user_pages (s.tables p) s.phys_mem).0) s.tables
                others,
            if_false ((free_user_pages (s.tables p) s.phys_mem).1) s.phys_mem others,
          )),
      λ last.
          let alone : eq_ℤ (pos u) (pos 0) ≡ true = ground arith in
          let (table, m) = free_user_pages (s.tables p) s.phys_mem in
          let tables = if_true (update s.tables p table) s.tables alone in
          let own = ap (λ (f : ℕ → PageTable). f p) tables ∙ update_self s.tables p table in
          let frames = if_true m s.phys_mem alone in
          (
            subst
                (λ t.
                  GivenBack (s.tables p) t s.phys_mem
                    (if eq_ℤ (pos u) (pos 0) then m else s.phys_mem))
                (sym own)
                (subst (λ f. GivenBack (s.tables p) table s.phys_mem f) (sym frames)
                  (free_user_pages-GivenBack (s.tables p) s.phys_mem)),
            λ q other.
                ap (λ (f : ℕ → PageTable). f q) tables ∙ update_other s.tables p table q other,
          ),
    )
