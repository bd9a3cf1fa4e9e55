-- ===== src/Sched.antt =====
-- zeos_full/sched.c: the tasks, the queues and the round-robin policy. A queue is the list of its
-- tasks, in order, by the contract of zeos_full/include/list.h; a task is its index in `task`.
pub mod Policy
pub mod Places
pub mod Switch
use ze_os_filesystem.Base.{
  ℕ, zero, suc, ◌+◌, ◌-◌, ◌%◌, ◌^◌, Bool, true, false, not, ◌&&◌, ◌||◌, ltb, ◌==◌, if◌then◌else◌,
  Option, none, some, List, [], ◌∷◌, ◌++◌, update, Result, ok, fault, ◌>>=◌, ◌>>◌, require,
}
use ze_os_filesystem.Base.Int.{as_int, ℤ, pos, negsuc, eq_ℤ, add_int}

-- zeos_full/include/stats.h
pub record Stats : Type 0 where
  pub user_ticks : ℕ
  pub system_ticks : ℕ
  pub blocked_ticks : ℕ
  pub ready_ticks : ℕ
  pub elapsed_total_ticks : ℕ
  pub total_trans : ℕ
  pub remaining_ticks : ℕ

-- The fields of `task_struct` that the policy uses.
pub record Task : Type 0 where
  pub pid : ℤ
  pub quantum : ℕ
  pub stats : Stats

-- The queues that a task's list anchor can be in: those of sched.c and one for each semaphore.
pub data Queue : Type 0 where
  free_queue ready_queue : Queue
  blocked_queue : ℕ → Queue

pub record Scheduler : Type 0 where
  pub task : ℕ → Task
  pub freequeue : List ℕ
  pub readyqueue : List ℕ
  pub blocked : ℕ → List ℕ
  pub current : ℕ
  pub idle_task : ℕ
  pub quantum_left : ℤ
  pub dir_usage : ℕ → ℤ
  pub next_pid : ℕ

abbrev pub nr_tasks : ℕ
nr_tasks = 10

-- `list_empty`
abbrev pub empty : List ℕ → Bool
empty [] = true
empty (x ∷ xs) = false

-- `list_del`: a task is in one queue at most.
unfoldable pub remove : ℕ → List ℕ → List ℕ
remove t [] = []
remove t (x ∷ xs) = let rest = remove t xs in if t == x then rest else x ∷ rest

abbrev pub list_del : ℕ → Scheduler → Scheduler
list_del t s = record s {
  freequeue = remove t s.freequeue;
  readyqueue = remove t s.readyqueue;
  blocked = λ i. remove t (s.blocked i);
}

abbrev pub list_add_tail : ℕ → Queue → Scheduler → Scheduler
list_add_tail t free_queue s = record s { freequeue = s.freequeue ++ t ∷ [] }
list_add_tail t ready_queue s = record s { readyqueue = s.readyqueue ++ t ∷ [] }
list_add_tail t (blocked_queue i) s = record s {
  blocked = update s.blocked i (s.blocked i ++ t ∷ []);
}

-- A task whose anchor is in no list has a null `next`, and `list_del` of it would change nothing.
unfoldable pub update_process_state_rr : ℕ → Option Queue → Scheduler → Scheduler
update_process_state_rr t dst s =
    let deleted = list_del t s in
    elim dst [
      | none ↦ deleted
      | some queue ↦ if t == s.idle_task then deleted else list_add_tail t queue deleted
    ]

abbrev pub set_stats : ℕ → Stats → Scheduler → Scheduler
set_stats t stats s = record s { task = update s.task t (record (s.task t) { stats = stats }) }

-- `unsigned long` arithmetic; `ticks` is what `get_ticks` returns, from the processor's counter.
abbrev pub elapsed : ℕ → Stats → ℕ
elapsed ticks stats = (ticks + 2 ^ 32 - stats.elapsed_total_ticks) % 2 ^ 32

unfoldable pub finish_user_time : ℕ → Stats → Stats
finish_user_time ticks stats = record stats {
  user_ticks = (stats.user_ticks + elapsed ticks stats) % 2 ^ 32;
  elapsed_total_ticks = ticks;
}

unfoldable pub finish_system_time : ℕ → Stats → Stats
finish_system_time ticks stats = record stats {
  system_ticks = (stats.system_ticks + elapsed ticks stats) % 2 ^ 32;
  elapsed_total_ticks = ticks;
}

unfoldable pub finish_ready_time : ℕ → Stats → Stats
finish_ready_time ticks stats = record stats {
  ready_ticks = (stats.ready_ticks + elapsed ticks stats) % 2 ^ 32;
  elapsed_total_ticks = ticks;
  total_trans = (stats.total_trans + 1) % 2 ^ 32;
}

-- `get_ticks` is called twice.
abbrev pub init_stats : ℕ → ℕ → Stats
init_stats ticks ticks' = record {
  user_ticks = 0;
  system_ticks = 0;
  blocked_ticks = 0;
  ready_ticks = 0;
  elapsed_total_ticks = ticks;
  total_trans = 0;
  remaining_ticks = ticks';
}

-- The task that runs next, and the scheduler without it in the ready queue.
unfoldable pub next_task : Scheduler → ℕ × Scheduler
next_task s = elim s.readyqueue [ [] ↦ (s.idle_task, s) | t ∷ ts ↦ (t, list_del t s) ]

-- `task_switch` makes the chosen task the current one; the call returns when the old one is chosen
-- again. The clock is read twice.
unfoldable pub sched_next_rr : ℕ → ℕ → Scheduler → Scheduler
sched_next_rr ticks ticks' s0 =
    let (t, s) = next_task s0 in
    let old = s.current in
    let charged = set_stats old (finish_system_time ticks ((s.task old).stats)) s in
    record charged {
      task =
          if t == s.idle_task
          then charged.task
          else (set_stats t (finish_ready_time ticks' ((charged.task t).stats)) charged).task;
      current = t;
      quantum_left = as_int ((s.task t).quantum);
    }

unfoldable pub update_sched_data_rr : Scheduler → Result Scheduler
update_sched_data_rr s = do
  left ← add_int s.quantum_left (negsuc 0)
  ok (record s { quantum_left = left })

unfoldable pub needs_sched_rr : Scheduler → Bool × Scheduler
needs_sched_rr s =
    let idle = s.current == s.idle_task in
    if eq_ℤ s.quantum_left (pos 0) || idle
    then (if idle && empty s.readyqueue
        then (false, record s { quantum_left = as_int ((s.task s.current).quantum) })
        else (true, s))
    else (false, s)

-- The clock interrupt's call.
unfoldable pub scheduling : ℕ → ℕ → Scheduler → Result Scheduler
scheduling ticks ticks' s0 = do
  s1 ← update_sched_data_rr s0
  let (needed, s) = needs_sched_rr s1
  (if needed
      then ok (sched_next_rr ticks ticks' (update_process_state_rr s.current (some ready_queue) s))
      else ok s)

-- `n` rounds from directory `i` on.
unfoldable pub free_dir : (ℕ → ℤ) → ℕ → ℕ → Option ℕ
free_dir usage zero i = none
free_dir usage (suc n) i =
    let rest = free_dir usage n (i + 1) in if eq_ℤ (usage i) (pos 0) then some i else rest

-- `allocate_DIR`: the directory, or -1.
unfoldable pub allocate_dir : Scheduler → Option ℕ × Scheduler
allocate_dir s = elim (free_dir s.dir_usage nr_tasks 0) [
  | none ↦ (none, s)
  | some i ↦ (some i, record s { dir_usage = update s.dir_usage i (pos 1) })
]

-- `n` rounds of the loop of `init_sched` from task `i` on; `list_add` puts a task first.
unfoldable pub add_tasks : ℕ → ℕ → Scheduler → Scheduler
add_tasks zero i s = s
add_tasks (suc n) i s = add_tasks n (i + 1) (record s {
  task = update s.task i (record (s.task i) { pid = negsuc 0 });
  freequeue = i ∷ s.freequeue;
  dir_usage = update s.dir_usage i (pos 0);
})

-- The last call, of `initialize_sem`, is to the semaphores, which stand over the scheduler.
unfoldable pub init_sched : Scheduler → Scheduler
init_sched s = add_tasks nr_tasks 0 (record s { freequeue = []; readyqueue = [] })
