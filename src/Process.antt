-- ===== src/Process.antt =====
-- The processes of zeos_full/sys.c: `sys_fork`, `sys_clone` and `sys_exit`.
pub mod Runs
pub mod Start
pub mod Statistics
pub mod Boot
pub mod Places
pub mod Frames
pub mod Copy
pub mod Fork
pub mod Exit
pub mod Clone
pub mod Charges
use ze_os_filesystem.Base.{
  ℕ, zero, suc, ◌+◌, ◌-◌, ◌%◌, ◌^◌, ◌≤◌, ◌<◌, ◌≡◌, refl, ◌∙◌, ap, arith, inl, inr, Bool-cases, Bool,
  true, false, not, ◌&&◌, ltb, ◌==◌, if◌then◌else◌, Option, none, some, List, [], ◌∷◌, ◌++◌, update,
  Result, ok, fault, ◌>>=◌,
}
use ze_os_filesystem.Base.Int.{as_int, ℤ, pos, negsuc, neg, eq_ℤ, ltb_ℤ, add_int}
use ze_os_filesystem.Utils.{
  user_first_page, num_pag_code, num_pag_data, access_ok, verify_read, verify_write,
}
use ze_os_filesystem.Sched.{
  Scheduler, Task, Stats, free_queue, ready_queue, empty, nr_tasks, list_del, list_add_tail,
  update_process_state_rr, finish_system_time, init_stats, sched_next_rr, allocate_dir, set_stats,
}
use ze_os_filesystem.Sem.{Semaphores, destroy_owned_sems}
use ze_os_filesystem.Mm.{
  PhysMem, PageTable, num_pag_kernel, first_data_page, alloc_frame, free_frame, set_ss_pag,
  del_ss_pag, get_frame, set_user_pages, free_user_pages,
}
use ze_os_filesystem.Sys.{ChannelEntry}

-- The scheduler stands under the semaphores. `tables i` is the page table of directory `i`; `dir t` is
-- the directory of task `t`, if it has one; `pages` are the words of the frames; `stack` and
-- `kernel_esp` are the kernel stack of a task and the index in it.
pub record Processes : Type 0 where
  pub semaphores : Semaphores
  pub phys_mem : PhysMem
  pub tables : ℕ → PageTable
  pub dir : ℕ → Option ℕ
  pub pages : ℕ → ℕ → ℕ
  pub channels : ℕ → ℕ → ChannelEntry
  pub stack : ℕ → ℕ → ℕ
  pub kernel_esp : ℕ → ℕ

abbrev pub scheduler : Processes → Scheduler
scheduler s = s.semaphores.scheduler

abbrev pub set_scheduler : Scheduler → Processes → Processes
set_scheduler sched s = record s { semaphores = record (s.semaphores) { scheduler = sched } }

abbrev pub enomem : ℕ
enomem = 12

abbrev pub efault : ℕ
efault = 14

abbrev pub kernel_stack_size : ℕ
kernel_stack_size = 1024

abbrev pub default_quantum : ℕ
default_quantum = 30

unfoldable pub sys_getpid : Processes → ℤ
sys_getpid s = ((scheduler s).task (scheduler s).current).pid

-- The frames of `sys_fork`, taken one by one; where one is missing, those taken before are given back.
unfoldable pub free_all : List ℕ → PhysMem → PhysMem
free_all [] m = m
free_all (frame ∷ frames) m = free_all frames (free_frame frame m)

unfoldable pub take_frames : ℕ → List ℕ → PhysMem → Option (List ℕ) × PhysMem
take_frames zero taken m = (some taken, m)
take_frames (suc n) taken m =
    let (frame, m') = alloc_frame m in
    elim frame [ none ↦ (none, free_all taken m') | some f ↦ take_frames n (taken ++ f ∷ []) m' ]

-- `n` entries of a page table, from entry `i` on.
unfoldable pub share_entries : ℕ → ℕ → ℕ → ℕ → (ℕ → PageTable) → ℕ → PageTable
share_entries zero i child father tables = tables
share_entries (suc n) i child father tables =
    share_entries n (i + 1) child father
      (update tables child (update (tables child) i (tables father i)))

-- The pages of data: each gets a frame of its own in the child, which is reached for a while through an
-- entry of the father, and the words of the father's page.
unfoldable pub copy_pages :
    List ℕ → ℕ → ℕ → ℕ → (ℕ → PageTable) × (ℕ → ℕ → ℕ) → (ℕ → PageTable) × (ℕ → ℕ → ℕ)
copy_pages [] i child father s = s
copy_pages (frame ∷ frames) i child father (tables, pages) =
    let t1 = update tables child (set_ss_pag (tables child) i frame) in
    let t2 = update t1 father (set_ss_pag (t1 father) (i + num_pag_data) frame) in
    let from = get_frame (t2 father) i in
    let to = get_frame (t2 father) (i + num_pag_data) in
    let t3 = update t2 father (del_ss_pag (t2 father) (i + num_pag_data)) in
    copy_pages frames (i + 1) child father (t3, update pages to (pages from))

-- `copy_data( current(), child, sizeof(union task_union) )`: the whole of a task.
unfoldable pub copy_task : ℕ → ℕ → Processes → Processes
copy_task current child s =
    let sched = scheduler s in
    record (set_scheduler (record sched { task = update sched.task child (sched.task current) })
      s) {
        dir = update s.dir child (s.dir current);
        channels = update s.channels child (s.channels current);
        stack = update s.stack child (s.stack current);
        kernel_esp = update s.kernel_esp child (s.kernel_esp current);
      }

-- The new process's number, statistics and stack, and its place among the ready ones. `ret_from_fork`
-- is the address of that routine.
unfoldable pub start_child : ℕ → ℕ → ℕ → ℕ → Processes → ℤ × Processes
start_child ret_from_fork ticks ticks' child s =
    let sched = scheduler s in
    let number = (sched.next_pid + 1) % 2 ^ 32 in
    let task = record (sched.task child) { pid = as_int number; stats = init_stats ticks ticks' } in
    let sched' = record sched { next_pid = number; task = update sched.task child task } in
    let words = update (update (s.stack child) 1006 ret_from_fork) 1005 0 in
    (
      as_int number,
      record (set_scheduler (list_add_tail child ready_queue sched') s) {
        stack = update s.stack child words;
        kernel_esp = update s.kernel_esp child 1005;
      },
    )

-- The directory that `allocate_DIR` gives to a task; the code ignores that there is none.
abbrev pub with_dir : ℕ → Option ℕ × Scheduler → Processes → Processes
with_dir child (none, sched) s = s
with_dir child (some i, sched) s = record (set_scheduler sched s) {
  dir = update s.dir child (some i);
}

unfoldable pub give_dir : ℕ → Processes → Processes
give_dir child s = with_dir child (allocate_dir (scheduler s)) s

unfoldable pub inherit : List ℕ → ℕ → ℕ → Processes → Processes
inherit frames child father s =
    let shared = share_entries (num_pag_kernel + num_pag_code) 0 child father s.tables in
    let (tables, pages) = copy_pages frames first_data_page child father (shared, s.pages) in
    record s { tables = tables; pages = pages }

-- A task without a directory has no page table.
abbrev pub fill_child :
    ℕ → ℕ → ℕ → ℕ → List ℕ → Option ℕ → Option ℕ → Processes → Result (ℤ × Processes)
fill_child ret_from_fork ticks ticks' child v none father s = fault
fill_child ret_from_fork ticks ticks' child v (some p) none s = fault
fill_child ret_from_fork ticks ticks' child v (some p) (some q) s =
    ok (start_child ret_from_fork ticks ticks' child (inherit v p q s))

abbrev pub fork_task :
    ℕ → ℕ → ℕ → ℕ → Option (List ℕ) × PhysMem → Processes → Result (ℤ × Processes)
fork_task ret_from_fork ticks ticks' child (none, m) s = ok (neg enomem, record s { phys_mem = m })
fork_task ret_from_fork ticks ticks' child (some v, m) s =
    let current = (scheduler s).current in
    let s1 = set_scheduler (list_del child (scheduler s)) (record s { phys_mem = m }) in
    let s2 = give_dir child (copy_task current child s1) in
    fill_child ret_from_fork ticks ticks' child v (s2.dir child) (s2.dir current) s2

abbrev pub fork_first : ℕ → ℕ → ℕ → List ℕ → Processes → Result (ℤ × Processes)
fork_first ret_from_fork ticks ticks' [] s = ok (neg enomem, s)
fork_first ret_from_fork ticks ticks' (child ∷ _) s =
    fork_task ret_from_fork ticks ticks' child (take_frames num_pag_data [] s.phys_mem) s

unfoldable pub sys_fork : ℕ → ℕ → ℕ → Processes → Result (ℤ × Processes)
sys_fork ret_from_fork ticks ticks' s =
    fork_first ret_from_fork ticks ticks' ((scheduler s).freequeue) s

abbrev pub is_dir : Option ℕ → ℕ → Bool
is_dir none i = false
is_dir (some p) i = p == i

-- `n` rounds of the loop of `find_dir_usage` from directory `i` on.
unfoldable pub find_dir : ℕ → ℕ → Option ℕ → Option ℕ
find_dir zero i dir = none
find_dir (suc n) i dir = let rest = find_dir n (i + 1) dir in if is_dir dir i then some i else rest

pub find_dir-some : (n i p : ℕ) → i ≤ p → p < i + n → find_dir n i (some p) ≡ some p
unfolding find_dir
find_dir-some zero i p le lt = absurd (omega arith)
find_dir-some (suc n) i p le lt = elim (Bool-cases (p == i)) [
  | inl here ↦ let same : i ≡ p = ground arith in rw (here, same) refl
  | inr away ↦ rw away (find_dir-some n (i + 1) p (ground arith) (omega arith))
]

-- The index of the task's count in `dir_usage`; `none` is a null pointer.
unfoldable pub find_dir_usage : ℕ → Processes → Option ℕ
find_dir_usage t s = find_dir nr_tasks 0 (s.dir t)

pub find_dir_usage-some :
    (t p : ℕ) (s : Processes) → s.dir t ≡ some p → p < nr_tasks → find_dir_usage t s ≡ some p
unfolding find_dir_usage
find_dir_usage-some t p s has_dir small =
    ap (find_dir nr_tasks 0) has_dir ∙ find_dir-some nr_tasks 0 p (omega arith) small

abbrev pub set_dir_usage : ℕ → ℤ → Processes → Processes
set_dir_usage i usage s =
    let sched = scheduler s in
    set_scheduler (record sched { dir_usage = update sched.dir_usage i usage }) s

abbrev pub set_pid : ℕ → ℤ → Scheduler → Scheduler
set_pid t pid sched = record sched {
  task = update sched.task t (record (sched.task t) { pid = pid });
}

-- The pages of data go back with the last task of the directory.
abbrev pub release_pages : ℕ → ℤ → Processes → Processes
release_pages i usage s =
    let (table, m) = free_user_pages (s.tables i) s.phys_mem in
    let last = eq_ℤ usage (pos 0) in
    record s {
      tables = if last then update s.tables i table else s.tables;
      phys_mem = if last then m else s.phys_mem;
    }

-- The task goes to the free ones, and the next one runs.
abbrev pub leave : ℕ → ℕ → ℕ → Semaphores → Processes → Processes
leave ticks ticks' t sems s =
    let s1 = record s { semaphores = sems } in
    let dead = set_pid t (negsuc 0) (scheduler s1) in
    let freed = update_process_state_rr t (some free_queue) dead in
    set_scheduler (sched_next_rr ticks ticks' freed) s1

abbrev pub exit_dir : ℕ → ℕ → ℕ → Option ℕ → Processes → Result Processes
exit_dir ticks ticks' t none s = fault
exit_dir ticks ticks' t (some i) s = do
  usage ← add_int ((scheduler s).dir_usage i) (negsuc 0)
  let s1 = release_pages i usage (set_dir_usage i usage s)
  sems ← destroy_owned_sems (((scheduler s1).task t).pid) s1.semaphores
  ok (leave ticks ticks' t sems s1)

-- `sys_exit`; a task without a directory is a null pointer.
unfoldable pub sys_exit : ℕ → ℕ → Processes → Result Processes
sys_exit ticks ticks' s =
    let t = (scheduler s).current in exit_dir ticks ticks' t (find_dir_usage t s) s

-- The child shares the directory, and starts `function` on `stack`.
abbrev pub clone_shared : ℕ → ℕ → ℕ → ℕ → ℕ → ℕ → Option ℕ → Processes → Result (ℤ × Processes)
clone_shared ret_from_fork ticks ticks' function stack child none s = fault
clone_shared ret_from_fork ticks ticks' function stack child (some i) s = do
  usage ← add_int ((scheduler s).dir_usage i) (pos 1)
  let (res, s1) = start_child ret_from_fork ticks ticks' child (set_dir_usage i usage s)
  let words = update (update (s1.stack child) 1022 stack) 1019 function
  ok (res, record s1 { stack = update s1.stack child words })

abbrev pub clone_task : ℕ → ℕ → ℕ → ℕ → ℕ → ℕ → Processes → Result (ℤ × Processes)
clone_task ret_from_fork ticks ticks' function stack child s =
    let current = (scheduler s).current in
    let s1 = copy_task current child (set_scheduler (list_del child (scheduler s)) s) in
    clone_shared ret_from_fork ticks ticks' function stack child (find_dir_usage child s1) s1

abbrev pub clone_first : ℕ → ℕ → ℕ → ℕ → ℕ → List ℕ → Processes → Result (ℤ × Processes)
clone_first ret_from_fork ticks ticks' function stack [] s = ok (neg enomem, s)
clone_first ret_from_fork ticks ticks' function stack (child ∷ _) s =
    clone_task ret_from_fork ticks ticks' function stack child s

-- An address 0 is `NULL`.
unfoldable pub sys_clone : ℕ → ℕ → ℕ → ℕ → ℕ → Processes → Result (ℤ × Processes)
sys_clone ret_from_fork ticks ticks' function stack s =
    if function == 0
    then ok (neg efault, s)
    else if stack == 0
    then ok (neg efault, s)
    else if not (access_ok verify_read function 4)
    then ok (neg efault, s)
    else if not (access_ok verify_write stack 4)
    then ok (neg efault, s)
    else clone_first ret_from_fork ticks ticks' function stack ((scheduler s).freequeue) s
