-- ===== src/Sem.antt =====
-- zeos_full/sem.c: the table of semaphores over the scheduler's queues.
pub mod Places
pub mod Order
pub mod Invariant
pub mod Runs
use ze_os_filesystem.Base.{
  ℕ, zero, suc, ◌+◌, ◌-◌, ◌%◌, ◌^◌, Bool, true, false, not, ◌&&◌, ltb, ◌==◌, if◌then◌else◌, Option,
  none, some, List, [], ◌∷◌, update, Result, ok, ◌>>=◌,
}
use ze_os_filesystem.Base.Int.{ℤ, pos, negsuc, neg, eq_ℤ, ltb_ℤ, add_int}
use ze_os_filesystem.Sched.{
  Scheduler, ready_queue, blocked_queue, empty, list_del, list_add_tail, update_process_state_rr,
  sched_next_rr,
}

-- The list `blocked` of a semaphore is a queue of the scheduler.
pub record Sem : Type 0 where
  pub id : ℕ
  pub count : ℕ
  pub owner : ℤ
  pub used : ℤ

pub record Semaphores : Type 0 where
  pub semafors : ℕ → Sem
  pub scheduler : Scheduler

abbrev pub n_semafors : ℕ
n_semafors = 20

abbrev pub no_id : ℕ
no_id = 0xDEAD

abbrev pub einval : ℕ
einval = 22

abbrev pub unused_sem : Sem
unused_sem = record { id = no_id; count = no_id; owner = pos no_id; used = pos 0 }

-- `n` rounds of the loop from semaphore `i` on.
unfoldable pub clear_sems : ℕ → ℕ → Semaphores → Semaphores
clear_sems zero i s = s
clear_sems (suc n) i s =
    clear_sems n (i + 1) (record s { semafors = update s.semafors i unused_sem })

unfoldable pub initialize_sem : Semaphores → Semaphores
unfolding clear_sems
initialize_sem s = clear_sems n_semafors 0 s

-- `(unsigned)n_sem`
abbrev pub to_unsigned : ℤ → ℕ
to_unsigned (pos n) = n % 2 ^ 32
to_unsigned (negsuc n) = 2 ^ 32 - 1 - n % 2 ^ 32

-- `n` rounds from semaphore `i` on: the first one with this identifier, or an unused one.
unfoldable pub find_id : (ℕ → Sem) → ℕ → ℕ → ℕ → Option ℕ
find_id semafors id zero i = none
find_id semafors id (suc n) i =
    let rest = find_id semafors id n (i + 1) in if (semafors i).id == id then some i else rest

unfoldable pub get_semafor : ℤ → Semaphores → Option ℕ
get_semafor n_sem s = find_id s.semafors (to_unsigned n_sem) n_semafors 0

unfoldable pub find_unused : (ℕ → Sem) → ℕ → ℕ → Option ℕ
find_unused semafors zero i = none
find_unused semafors (suc n) i =
    let rest = find_unused semafors n (i + 1) in
    if eq_ℤ ((semafors i).used) (pos 0) then some i else rest

unfoldable pub get_free_semafor : Semaphores → Option ℕ
get_free_semafor s = find_unused s.semafors n_semafors 0

abbrev pub set_sem : ℕ → Sem → Semaphores → Semaphores
set_sem i sem s = record s { semafors = update s.semafors i sem }

abbrev pub pid : Semaphores → ℤ
pid s = (s.scheduler.task s.scheduler.current).pid

-- The test of `used` behind `get_free_semafor` is never true.
unfoldable pub sem_init : ℤ → ℕ → Semaphores → ℤ × Semaphores
sem_init n_sem value s = elim (get_semafor n_sem s) [
  | some i ↦ (neg einval, s)
  | none ↦ elim (get_free_semafor s) [
    | none ↦ (neg 2, s)
    | some i ↦ (
      pos 0,
      record (set_sem i
          (record { id = to_unsigned n_sem; count = value; owner = pid s; used = pos 1 }) s) {
            scheduler = record (s.scheduler) { blocked = update s.scheduler.blocked i [] };
          },
    )
  ]
]

-- A semaphore that is in use.
abbrev pub in_use : Sem → Bool
in_use sem = ltb_ℤ (pos 0) sem.used

-- A call that returns, or one whose task waits for semaphore `i`: what is left of it, once the task
-- runs again, is `sem_wait_rest`.
pub data Waiting : Type 0 where
  returned : ℤ → Waiting
  blocks : ℕ → Waiting

unfoldable pub sem_wait : ℕ → ℕ → ℤ → Semaphores → Waiting × Semaphores
sem_wait ticks ticks' n_sem s = elim (get_semafor n_sem s) [
  | none ↦ (returned (neg einval), s)
  | some i ↦
      let sem = s.semafors i in
      if not (in_use sem)
      then (returned (neg einval), s)
      else if ltb 0 sem.count
      then (returned (negsuc 0), set_sem i (record sem { count = sem.count - 1 }) s)
      else (
        blocks i,
        record s {
          scheduler =
              sched_next_rr ticks ticks'
                (update_process_state_rr s.scheduler.current (some (blocked_queue i)) s.scheduler);
        },
      )
]

unfoldable pub sem_wait_rest : ℕ → Semaphores → Result (ℤ × Semaphores)
sem_wait_rest i s =
    let sem = s.semafors i in
    if ltb_ℤ sem.used (pos 0)
    then (do used ← add_int sem.used (pos 1); ok (neg 2, set_sem i (record sem { used = used }) s))
    else ok (pos 0, s)

-- The first task that waits becomes ready.
unfoldable pub sem_signal : ℤ → Semaphores → ℤ × Semaphores
sem_signal n_sem s = elim (get_semafor n_sem s) [
  | none ↦ (neg einval, s)
  | some i ↦
      let sem = s.semafors i in
      if not (in_use sem) then (neg einval, s) else elim (s.scheduler.blocked i) [
        | [] ↦ (pos 0, set_sem i (record sem { count = (sem.count + 1) % 2 ^ 32 }) s)
        | p ∷ ps ↦
            (pos 0, record s { scheduler = list_add_tail p ready_queue (list_del p s.scheduler) })
      ]
]

-- `list_for_each_safe` over the tasks that wait; each makes `used` smaller by one.
unfoldable pub wake_all : ℕ → List ℕ → Semaphores → Result Semaphores
wake_all i [] s = ok s
wake_all i (p ∷ ps) s = do
  used ← add_int ((s.semafors i).used) (negsuc 0)
  wake_all i ps (record (set_sem i (record (s.semafors i) { used = used }) s) {
    scheduler = list_add_tail p ready_queue (list_del p s.scheduler);
  })

unfoldable pub internal_sem_destroy : ℕ → Semaphores → Result (ℤ × Semaphores)
internal_sem_destroy i s =
    let sem = s.semafors i in
    if not (in_use sem)
    then ok (neg einval, s)
    else if not (eq_ℤ sem.owner (pid s))
    then ok (neg einval, s)
    else (do
      s ← wake_all i (s.scheduler.blocked i) (set_sem i (record sem { used = pos 0; id = no_id }) s)
      ok (pos 0, s))

unfoldable pub sem_destroy : ℤ → Semaphores → Result (ℤ × Semaphores)
sem_destroy n_sem s = elim (get_semafor n_sem s) [
  | none ↦ ok (neg einval, s)
  | some i ↦ internal_sem_destroy i s
]

-- `n` rounds of the loop of `destroy_owned_sems` from semaphore `i` on.
unfoldable pub destroy_owned : ℤ → ℕ → ℕ → Semaphores → Result Semaphores
destroy_owned pid zero i s = ok s
destroy_owned pid (suc n) i s = do
  s ←
      (if in_use (s.semafors i) && eq_ℤ ((s.semafors i).owner) pid
        then (do r ← internal_sem_destroy i s; ok r.1)
        else ok s)
  destroy_owned pid n (i + 1) s

unfoldable pub destroy_owned_sems : ℤ → Semaphores → Result Semaphores
destroy_owned_sems pid s = destroy_owned pid n_semafors 0 s
