-- ===== src/Process/Clone.antt =====
-- `sys_clone` of zeos_full/sys.c: a task that shares the address space of its creator.
use ze_os_filesystem.Base.{
  ℕ, ◌+◌, ◌%◌, ◌^◌, ◌<◌, ◌≡◌, ◌≢◌, refl, true, ==_ne, List, [], ◌∷◌, ◌++◌, some, update,
  update_self, Result, ok, ◌>>=◌, ap, ◌∙◌,
}
use ze_os_filesystem.Base.Int.{as_int, ℤ, pos, add_int, add_int-pos}
use ze_os_filesystem.Utils.{access_ok, verify_read, verify_write}
use ze_os_filesystem.Sched.{nr_tasks, list_del, remove}
use ze_os_filesystem.Process.{
  Processes, scheduler, set_scheduler, set_dir_usage, copy_task, start_child, find_dir_usage,
  find_dir_usage-some, clone_shared, clone_first, sys_clone,
}

guards :
    (ret_from_fork ticks ticks' function stack : ℕ) (s : Processes)
    → function ≢ 0
    → stack ≢ 0
    → access_ok verify_read function 4 ≡ true
    → access_ok verify_write stack 4 ≡ true
    → sys_clone ret_from_fork ticks ticks' function stack s
      ≡ clone_first ret_from_fork ticks ticks' function stack (scheduler s).freequeue s
unfolding sys_clone
guards ret ticks ticks' function stack s f st r w =
    rw (==_ne function 0 f, ==_ne stack 0 st, r, w) refl

-- The result once the directory is counted.
abbrev cloned : ℕ → ℕ → ℕ → ℕ → ℕ → ℕ → ℕ → ℤ → Processes → ℤ × Processes
cloned ret ticks ticks' function stack c i usage s =
    let r = start_child ret ticks ticks' c (set_dir_usage i usage s) in
    let words = update (update (r.1.stack c) 1022 stack) 1019 function in
    (r.0, record (r.1) { stack = update r.1.stack c words })

-- Let task `t` run with the directory `p` of the ten, which `u` tasks use, so that one more is an
-- `int`, and task `c` be the first free one. For addresses that are not null and that the process may
-- read and write: `sys_clone` returns the next process number, one more modulo 2 ^ 32, as an `int`.
-- No page table, frame or word of memory changes. The child has the directory of its creator, which
-- one task more then uses, its stack leads to the function and the stack given, and it is the last of
-- the ready tasks.
pub sys_clone-shares :
    (ret_from_fork ticks ticks' function stack c t p u : ℕ) (rest : List ℕ) (s : Processes)
    → function ≢ 0
    → stack ≢ 0
    → access_ok verify_read function 4 ≡ true
    → access_ok verify_write stack 4 ≡ true
    → (scheduler s).freequeue ≡ c ∷ rest
    → (scheduler s).current ≡ t
    → s.dir t ≡ some p
    → p < nr_tasks
    → (scheduler s).dir_usage p ≡ pos u
    → u + 1 < 2 ^ 31
    → (s' : Processes) × (sys_clone ret_from_fork ticks ticks' function stack s
        ≡ ok (as_int (((scheduler s).next_pid + 1) % 2 ^ 32), s'))
      × (s'.tables ≡ s.tables)
      × (s'.phys_mem ≡ s.phys_mem)
      × (s'.pages ≡ s.pages)
      × (s'.dir c ≡ some p)
      × ((scheduler s').dir_usage p ≡ pos (u + 1))
      × (s'.stack c 1022 ≡ stack)
      × (s'.stack c 1019 ≡ function)
      × ((scheduler s').readyqueue ≡ remove c (scheduler s).readyqueue ++ c ∷ [])
unfolding sys_clone start_child copy_task
sys_clone-shares ret ticks ticks' function stack c t p u rest s f st r w free now has_dir small used
      few =
    let s1 = copy_task t c (set_scheduler (list_del c (scheduler s)) s) in
    let own : s1.dir c ≡ some p = update_self s.dir c (s.dir t) ∙ has_dir in
    let s2 = set_dir_usage p (pos (u + 1)) s1 in
    let (res, s3) = start_child ret ticks ticks' c s2 in
    let words = update (update (s3.stack c) 1022 stack) 1019 function in
    let s' = record s3 { stack = update s3.stack c words } in
    let here = update_self s3.stack c words in
    (
      s',
      guards ret ticks ticks' function stack s f st r w
          ∙ ap (λ l. clone_first ret ticks ticks' function stack l s) free
          ∙ ap
              (λ cur.
                let child = copy_task cur c (set_scheduler (list_del c (scheduler s)) s) in
                clone_shared ret ticks ticks' function stack c (find_dir_usage c child) child)
              now
          ∙ ap (λ d. clone_shared ret ticks ticks' function stack c d s1)
              (find_dir_usage-some c p s1 own small)
          ∙ ap {A = Result ℤ} {B = Result (ℤ × Processes)}
              (λ usage. usage >>= λ n. ok (cloned ret ticks ticks' function stack c p n s1))
              (ap (λ n. add_int n (pos 1)) used ∙ add_int-pos u 1 few),
      refl,
      refl,
      refl,
      own,
      update_self (scheduler s).dir_usage p (pos (u + 1)),
      ap (λ k. k 1022) here,
      ap (λ k. k 1019) here,
      refl,
    )
