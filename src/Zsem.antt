-- ===== src/Zsem.antt =====
-- zeos_full/zeos_semaphores.c: the second implementation of semaphores, an array of ten, over the
-- scheduler's queues.
pub mod Bounds
pub mod Destroy
pub mod Blocked
use ze_os_filesystem.Base.{
  ℕ, zero, suc, ◌+◌, ◌-◌, ◌^◌, ◌%◌, Bool, true, false, not, ◌||◌, ltb, ◌==◌, if◌then◌else◌, Option,
  none, some, List, [], ◌∷◌, update, Result, ok, fault, ◌>>=◌,
}
use ze_os_filesystem.Base.Int.{as_int, ℤ, pos, negsuc, neg, eq_ℤ, ltb_ℤ, add_int}
use ze_os_filesystem.Sched.{
  Scheduler, Task, Queue, ready_queue, blocked_queue, update_process_state_rr, sched_next_rr,
}

pub record ZSem : Type 0 where
  pub used : ℤ
  pub counter : ℤ
  pub owner : ℤ

-- The list `sem_blocked` of semaphore `i` is the queue `blocked i` of the scheduler.
pub record ZSems : Type 0 where
  pub zeos_sems : ℕ → ZSem
  pub scheduler : Scheduler

abbrev pub z_max_sems : ℕ
z_max_sems = 10

abbrev pub einval : ℕ
einval = 1

-- A call that returns, or one that lets others run: what is left of it is `zeos_sys_sem_init_rest`, or
-- `zeos_sys_sem_wait_rest`.
pub data Turn : Type 0 where
  returned : ℤ → Turn
  yields : ℕ → Turn

abbrev pub set_sem : ℕ → ZSem → ZSems → ZSems
set_sem i sem s = record s { zeos_sems = update s.zeos_sems i sem }

abbrev pub set_blocked : ℕ → List ℕ → ZSems → ZSems
set_blocked i tasks s = record s {
  scheduler = record (s.scheduler) { blocked = update s.scheduler.blocked i tasks };
}

abbrev pub pid : ZSems → ℤ
pid s = (s.scheduler.task s.scheduler.current).pid

-- `n` rounds of the loop from semaphore `i` on.
unfoldable pub init_loop : ℕ → ℕ → ZSems → ZSems
init_loop zero i s = s
init_loop (suc n) i s =
    init_loop n (i + 1) (set_blocked i [] (set_sem i (record (s.zeos_sems i) { used = pos 0 }) s))

unfoldable pub zeos_sys_init_sems : ZSems → ℤ × ZSems
zeos_sys_init_sems s = (pos 0, init_loop z_max_sems 0 s)

-- The test of an identifier, and the place in the array: `none` is refused, and place 10 is behind the
-- array.
unfoldable pub place : ℤ → Result (Option ℕ)
place (negsuc n) = ok none
place (pos i) =
    if ltb z_max_sems i then ok none else (if ltb i z_max_sems then ok (some i) else fault)

-- The running task goes to a queue, and the next one runs.
abbrev pub run_next : ℕ → ℕ → Queue → ZSems → ZSems
run_next ticks ticks' queue s =
    let moved = update_process_state_rr s.scheduler.current (some queue) s.scheduler in
    record s { scheduler = sched_next_rr ticks ticks' moved }

-- The loop that waits for the tasks of a semaphore that is destroyed, and what follows it.
unfoldable pub zeos_sys_sem_init_rest : ℕ → ℕ → ℕ → ℤ → ZSems → Turn × ZSems
zeos_sys_sem_init_rest ticks ticks' i value s =
    if ltb_ℤ ((s.zeos_sems i).used) (pos 0)
    then (yields i, run_next ticks ticks' ready_queue s)
    else (
      returned (pos 0),
      set_blocked i [] (set_sem i (record { used = pos 1; counter = value; owner = pid s }) s),
    )

unfoldable pub zeos_sys_sem_init : ℕ → ℕ → ℤ → ℤ → ZSems → Result (Turn × ZSems)
zeos_sys_sem_init ticks ticks' sem_id value s = do
  found ← place sem_id
  elim found [
    | none ↦ ok (returned (neg einval), s)
    | some i ↦
        if ltb_ℤ (pos 0) ((s.zeos_sems i).used)
        then ok (returned (neg einval), s)
        else ok (zeos_sys_sem_init_rest ticks ticks' i value s)
  ]

-- `list_for_each_safe` over the tasks that wait; each makes `used` smaller by one.
unfoldable pub wake_all : ℕ → List ℕ → ZSems → Result ZSems
wake_all i [] s = ok s
wake_all i (p ∷ ps) s = do
  used ← add_int ((s.zeos_sems i).used) (negsuc 0)
  let s1 = set_sem i (record (s.zeos_sems i) { used = used }) s
  wake_all i ps (record s1 { scheduler = update_process_state_rr p (some ready_queue) s.scheduler })

abbrev pub not_used : ZSem → Bool
not_used sem = not (ltb_ℤ (pos 0) sem.used)

unfoldable pub zeos_sys_sem_destroy : ℤ → ZSems → Result (ℤ × ZSems)
zeos_sys_sem_destroy sem_id s = do
  found ← place sem_id
  elim found [
    | none ↦ ok (neg einval, s)
    | some i ↦
        let sem = s.zeos_sems i in
        if not_used sem
        then ok (neg einval, s)
        else if not (eq_ℤ sem.owner (pid s))
        then ok (neg einval, s)
        else (do
          s1 ← wake_all i (s.scheduler.blocked i) (set_sem i (record sem { used = pos 0 }) s)
          ok (pos 0, s1))
  ]

unfoldable pub zeos_sys_sem_signal : ℤ → ZSems → Result (ℤ × ZSems)
zeos_sys_sem_signal sem_id s = do
  found ← place sem_id
  elim found [
    | none ↦ ok (neg einval, s)
    | some i ↦
        let sem = s.zeos_sems i in
        if not_used sem then ok (neg einval, s) else elim (s.scheduler.blocked i) [
          | [] ↦ do
            counter ← add_int sem.counter (pos 1)
            ok (pos 0, set_sem i (record sem { counter = counter }) s)
          | p ∷ ps ↦ ok (
            pos 0,
            record s { scheduler = update_process_state_rr p (some ready_queue) s.scheduler },
          )
        ]
  ]

unfoldable pub zeos_sys_sem_wait : ℕ → ℕ → ℤ → ZSems → Result (Turn × ZSems)
zeos_sys_sem_wait ticks ticks' sem_id s = do
  found ← place sem_id
  elim found [
    | none ↦ ok (returned (neg einval), s)
    | some i ↦
        let sem = s.zeos_sems i in
        if not_used sem
        then ok (returned (neg einval), s)
        else if ltb_ℤ (pos 0) sem.counter
        then (do
          counter ← add_int sem.counter (negsuc 0)
          ok (returned (pos 0), set_sem i (record sem { counter = counter }) s))
        else ok (yields i, run_next ticks ticks' (blocked_queue i) s)
  ]

-- The call when its task runs again.
unfoldable pub zeos_sys_sem_wait_rest : ℕ → ZSems → Result (ℤ × ZSems)
zeos_sys_sem_wait_rest i s =
    let sem = s.zeos_sems i in
    if ltb_ℤ sem.used (pos 0)
    then (do used ← add_int sem.used (pos 1); ok (neg 2, set_sem i (record sem { used = used }) s))
    else ok (pos 0, s)

-- Does one of the tasks have this number? Then the same for `n` semaphores from `i` on.
unfoldable pub has_pid : ℤ → List ℕ → (ℕ → Task) → Bool
has_pid pid [] task = false
has_pid pid (t ∷ ts) task = eq_ℤ ((task t).pid) pid || has_pid pid ts task

unfoldable pub blocked_loop : ℤ → ℕ → ℕ → ZSems → Bool
blocked_loop pid zero i s = false
blocked_loop pid (suc n) i s =
    has_pid pid (s.scheduler.blocked i) s.scheduler.task || blocked_loop pid n (i + 1) s

unfoldable pub zeos_is_blocked_pid : ℤ → ZSems → ℤ
zeos_is_blocked_pid pid s = if blocked_loop pid z_max_sems 0 s then pos 1 else pos 0

abbrev pub as_unsigned : ℤ → ℕ
as_unsigned (pos n) = n % 2 ^ 32
as_unsigned (negsuc n) = 2 ^ 32 - 1 - n % 2 ^ 32

unfoldable pub get_quantum : ℕ → Scheduler → ℤ
get_quantum t s = as_int ((s.task t).quantum)

unfoldable pub set_quantum : ℕ → ℤ → Scheduler → Scheduler
set_quantum t quantum s = record s {
  task = update s.task t (record (s.task t) { quantum = as_unsigned quantum });
}

-- The old quantum of the running task.
unfoldable pub zeos_sys_nice : ℤ → ZSems → ℤ × ZSems
zeos_sys_nice quantum s =
    let current = s.scheduler.current in
    (
      get_quantum current s.scheduler,
      record s { scheduler = set_quantum current quantum s.scheduler },
    )
