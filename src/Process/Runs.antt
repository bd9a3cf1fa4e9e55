-- ===== src/Process/Runs.antt =====
-- Sequences of calls and clock ticks on the processes of zeos_full.
use ze_os_filesystem.Base.{
  ℕ, ◌≡◌, ◌≢◌, refl, ◌==◌, Option, none, some, List, [], ◌∷◌, Bool-cases, inl, inr, subst, Result,
  ok, ok-injective, >>=-eq-ok,
}
use ze_os_filesystem.Base.Int.{ℤ, pos, negsuc, add_int}
use ze_os_filesystem.Utils.{access_ok, verify_read, verify_write}
use ze_os_filesystem.Sched.{Scheduler, free_queue, list_del, scheduling}
use ze_os_filesystem.Sched.Places.{Placed, IsOrdinary}
use ze_os_filesystem.Sched.Switch.{Alike-Placed, yield-Placed, scheduling-Placed}
use ze_os_filesystem.Sem.{Semaphores, destroy_owned_sems, sem_wait, sem_signal, sem_destroy}
use ze_os_filesystem.Sem.Places.{
  destroy_owned_sems-Placed, sem_wait-Placed, sem_signal-Placed, sem_destroy-Placed,
}
use ze_os_filesystem.Process.{
  Processes, scheduler, set_scheduler, copy_task, sys_fork, set_dir_usage, set_pid, release_pages,
  leave, exit_dir, find_dir_usage, sys_exit, clone_shared, clone_first, sys_clone,
}
use ze_os_filesystem.Process.Places.{
  SamePlaces, second, start_child-Placed, first_free-still, sys_fork-Placed,
}

clone_shared-Placed :
    (ret ticks ticks' function stack c : ℕ) (dir : Option ℕ) (s0 : Scheduler) (s : Processes)
    {r : ℤ} {s' : Processes}
    → SamePlaces (list_del c s0) (scheduler s)
    → Placed s0
    → (IsOrdinary c s0 → c ≢ s0.current)
    → clone_shared ret ticks ticks' function stack c dir s ≡ ok (r, s')
    → Placed (scheduler s')
clone_shared-Placed ret ticks ticks' function stack c none s0 s same placed still h = cc
clone_shared-Placed ret ticks ticks' function stack c (some i) s0 s same placed still h =
    let (usage, e, last) = >>=-eq-ok (add_int ((scheduler s).dir_usage i) (pos 1)) _ h in
    subst (λ k. Placed (scheduler k)) (second last)
      (start_child-Placed ret ticks ticks' c s0 (set_dir_usage i usage s) same placed still)

clone_first-Placed :
    (ret ticks ticks' function stack : ℕ) (free : List ℕ) (s : Processes) {r : ℤ} {s' : Processes}
    → (scheduler s).freequeue ≡ free
    → Placed (scheduler s)
    → clone_first ret ticks ticks' function stack free s ≡ ok (r, s')
    → Placed (scheduler s')
unfolding copy_task
clone_first-Placed ret ticks ticks' function stack [] s is placed h =
    subst (λ k. Placed (scheduler k)) (second h) placed
clone_first-Placed ret ticks ticks' function stack (c ∷ rest) s is placed h =
    let s1 = copy_task (scheduler s).current c (set_scheduler (list_del c (scheduler s)) s) in
    clone_shared-Placed ret ticks ticks' function stack c (find_dir_usage c s1) (scheduler s) s1
      ((refl, refl, refl, refl), refl) placed (first_free-still c rest (scheduler s) placed is) h

as_before :
    {s s' : Processes} {r r' : ℤ}
    → Placed (scheduler s)
    → ◌≡◌ {A = Result (ℤ × Processes)} (ok (r, s)) (ok (r', s'))
    → Placed (scheduler s')
as_before placed e = subst (λ k. Placed (scheduler k)) (second e) placed

sys_clone-Placed :
    (ret ticks ticks' function stack : ℕ) (s : Processes) {r : ℤ} {s' : Processes}
    → Placed (scheduler s)
    → sys_clone ret ticks ticks' function stack s ≡ ok (r, s')
    → Placed (scheduler s')
unfolding sys_clone
sys_clone-Placed ret ticks ticks' function stack s placed h = elim (Bool-cases (function == 0)) [
  | inl null ↦ as_before placed (rw null at h)
  | inr f ↦ elim (Bool-cases (stack == 0)) [
    | inl null ↦ as_before placed (rw (f, null) at h)
    | inr st ↦ elim (Bool-cases (access_ok verify_read function 4)) [
      | inr bad ↦ as_before placed (rw (f, st, bad) at h)
      | inl readable ↦ elim (Bool-cases (access_ok verify_write stack 4)) [
        | inr bad ↦ as_before placed (rw (f, st, readable, bad) at h)
        | inl writable ↦
            clone_first-Placed ret ticks ticks' function stack (scheduler s).freequeue s refl placed
              (rw (f, st, readable, writable) at h)
      ]
    ]
  ]
]

leave-Placed :
    (ticks ticks' t : ℕ) (sems : Semaphores) (s : Processes)
    → Placed sems.scheduler
    → sems.scheduler.current ≡ t
    → Placed (scheduler (leave ticks ticks' t sems s))
leave-Placed ticks ticks' t sems s placed now =
    let dead = set_pid t (negsuc 0) sems.scheduler in
    subst (λ k. Placed (scheduler (leave ticks ticks' k sems s))) now
      (yield-Placed ticks ticks' free_queue
        (set_pid sems.scheduler.current (negsuc 0) sems.scheduler)
        (Alike-Placed sems.scheduler _ (refl, refl, refl, refl) refl placed))

exit_dir-Placed :
    (ticks ticks' : ℕ) (dir : Option ℕ) (s : Processes) {s' : Processes}
    → Placed (scheduler s)
    → exit_dir ticks ticks' (scheduler s).current dir s ≡ ok s'
    → Placed (scheduler s')
exit_dir-Placed ticks ticks' none s placed h = cc
exit_dir-Placed ticks ticks' (some i) s placed h =
    let t = (scheduler s).current in
    let (usage, e, rest) = >>=-eq-ok (add_int ((scheduler s).dir_usage i) (negsuc 0)) _ h in
    let s1 = release_pages i usage (set_dir_usage i usage s) in
    let (sems, d, last) =
      >>=-eq-ok (destroy_owned_sems ((scheduler s1).task t).pid s1.semaphores) _ rest in
    let (placed1, now) =
      destroy_owned_sems-Placed ((scheduler s1).task t).pid s1.semaphores
        (Alike-Placed (scheduler s) (scheduler s1) (refl, refl, refl, refl) refl placed) d in
    subst (λ k. Placed (scheduler k)) (ok-injective last)
      (leave-Placed ticks ticks' t sems s1 placed1 now)

sys_exit-Placed :
    (ticks ticks' : ℕ) (s : Processes) {s' : Processes}
    → Placed (scheduler s)
    → sys_exit ticks ticks' s ≡ ok s'
    → Placed (scheduler s')
unfolding sys_exit
sys_exit-Placed ticks ticks' s placed h =
    exit_dir-Placed ticks ticks' (find_dir_usage (scheduler s).current s) s placed h

abbrev with_semaphores : Semaphores → Processes → Processes
with_semaphores sems s = record s { semaphores = sems }

-- A call of the running task, or a tick of the clock.
pub data Step : Processes → Processes → Type 0 where
  tick :
      {s : Processes} {sched : Scheduler} (ticks ticks' : ℕ)
      → scheduling ticks ticks' (scheduler s) ≡ ok sched
      → Step s (set_scheduler sched s)
  fork :
      {s s' : Processes} {r : ℤ} (ret ticks ticks' : ℕ)
      → sys_fork ret ticks ticks' s ≡ ok (r, s')
      → Step s s'
  clone :
      {s s' : Processes} {r : ℤ} (ret ticks ticks' function stack : ℕ)
      → sys_clone ret ticks ticks' function stack s ≡ ok (r, s')
      → Step s s'
  exit : {s s' : Processes} (ticks ticks' : ℕ) → sys_exit ticks ticks' s ≡ ok s' → Step s s'
  wait :
      {s : Processes} (ticks ticks' : ℕ) (n_sem : ℤ)
      → Step s (with_semaphores (sem_wait ticks ticks' n_sem s.semaphores).1 s)
  signal :
      {s : Processes} (n_sem : ℤ) → Step s (with_semaphores (sem_signal n_sem s.semaphores).1 s)
  destroy :
      {s : Processes} {sems : Semaphores} {r : ℤ} (n_sem : ℤ)
      → sem_destroy n_sem s.semaphores ≡ ok (r, sems)
      → Step s (with_semaphores sems s)

pub data Steps (s : Processes) : Processes → Type 0 where
  start : Steps s s
  then_step : {s1 s2 : Processes} → Steps s s1 → Step s1 s2 → Steps s s2

Step-Placed : {s s' : Processes} → Step s s' → Placed (scheduler s) → Placed (scheduler s')
Step-Placed (tick {s} {sched} ticks ticks' e) placed =
    scheduling-Placed ticks ticks' (scheduler s) sched placed e
Step-Placed (fork {s} ret ticks ticks' e) placed = sys_fork-Placed ret ticks ticks' s placed e
Step-Placed (clone {s} ret ticks ticks' function stack e) placed =
    sys_clone-Placed ret ticks ticks' function stack s placed e
Step-Placed (exit {s} ticks ticks' e) placed = sys_exit-Placed ticks ticks' s placed e
Step-Placed (wait {s} ticks ticks' n_sem) placed =
    sem_wait-Placed ticks ticks' n_sem s.semaphores placed
Step-Placed (signal {s} n_sem) placed = sem_signal-Placed n_sem s.semaphores placed
Step-Placed (destroy {s} n_sem e) placed = (sem_destroy-Placed n_sem s.semaphores placed e).0

-- Through every sequence of ticks of the clock, forks, clones, exits, and waits, signals and
-- destructions of semaphores: where each of the ten tasks but the idle one was in one place, it still
-- is, which means that it either runs, or stands once in one queue and in no other.
pub Steps-Placed : {s s' : Processes} → Steps s s' → Placed (scheduler s) → Placed (scheduler s')
Steps-Placed start placed = placed
Steps-Placed (then_step steps step) placed = Step-Placed step (Steps-Placed steps placed)
