-- ===== src/Process/Boot.antt =====
-- The first tasks of zeos_full: `init_sched`, `init_idle` and `init_task1` of zeos_full/sched.c.
use ze_os_filesystem.Base.{
  ℕ, ◌+◌, ◌%◌, ◌^◌, ◌<◌, ◌≡◌, ◌≢◌, refl, Bool, true, false, ◌==◌, ==_iff, if◌then◌else◌,
  tested_below, tested_below_at, Option, none, some, List, [], ◌∷◌, Bool-cases, inl, inr, ap, sym,
  ◌∙◌, subst, arith, ok, ok-injective,
}
use ze_os_filesystem.Base.Int.{as_int}
use ze_os_filesystem.Sched.{
  Scheduler, allocate_dir, free_dir, Queue, free_queue, ready_queue, blocked_queue, list_del,
  remove, add_tasks, init_sched,
}
use ze_os_filesystem.Sched.Places.{Placed, AreQueued, count, is_at}
use ze_os_filesystem.Process.{Processes, scheduler, set_scheduler, set_pid, give_dir}
use ze_os_filesystem.Process.Start.{init_idle, enter_task1, start_task1, init_task1}
use ze_os_filesystem.Process.Runs.{Steps, Steps-Placed}
use ze_os_filesystem.Process.Places.{give_dir-SamePlaces}

-- The queues of a kernel that has the idle task only, and those once the first process is there.
abbrev OnlyFree : List ℕ → Scheduler → Type 0
OnlyFree free s =
    (s.freequeue ≡ free) × (s.readyqueue ≡ []) × ((i : ℕ) → s.blocked i ≡ []) × (s.idle_task ≡ 9)

abbrev eight : List ℕ
eight = 7 ∷ 6 ∷ 5 ∷ 4 ∷ 3 ∷ 2 ∷ 1 ∷ 0 ∷ []

init_idle-OnlyFree :
    (cpu_idle ticks ticks' : ℕ) (s : Processes) {s1 : Processes}
    → ((i : ℕ) → (scheduler s).blocked i ≡ [])
    → init_idle cpu_idle ticks ticks' (set_scheduler (init_sched (scheduler s)) s) ≡ ok s1
    → OnlyFree (8 ∷ eight) (scheduler s1)
unfolding init_idle init_sched add_tasks remove
init_idle-OnlyFree cpu_idle ticks ticks' s empty h =
    let sched = list_del 9 (init_sched (scheduler s)) in
    let numbered = record (set_pid 9 (as_int sched.next_pid) sched) {
      next_pid = (sched.next_pid + 1) % 2 ^ 32;
    } in
    let ((f, r, b, i), c) = give_dir-SamePlaces 9 (set_scheduler numbered s) in
    subst (λ k. OnlyFree (8 ∷ eight) (scheduler k)) (ok-injective h)
      (f, r, (λ j. ap (λ (g : ℕ → List ℕ). g j) b ∙ ap (remove 9) (empty j)), refl)

enter_task1-OnlyFree :
    (ticks ticks' t : ℕ) (dir : Option ℕ) (free : List ℕ) (s : Processes) {s' : Processes}
    → OnlyFree free (scheduler s)
    → enter_task1 ticks ticks' t dir s ≡ ok s'
    → OnlyFree free (scheduler s')
enter_task1-OnlyFree ticks ticks' t none free s only h = cc
enter_task1-OnlyFree ticks ticks' t (some i) free s only h =
    subst (λ k. OnlyFree free (scheduler k)) (ok-injective h) only

init_task1-OnlyFree :
    (ticks ticks' : ℕ) (s : Processes) {s' : Processes}
    → OnlyFree (8 ∷ eight) (scheduler s)
    → init_task1 ticks ticks' s ≡ ok s'
    → OnlyFree eight (scheduler s')
unfolding init_task1 remove
init_task1-OnlyFree ticks ticks' s (free, ready, empty, idle) h =
    let sched = list_del 8 (scheduler s) in
    let numbered = record (set_pid 8 (as_int sched.next_pid) sched) {
      next_pid = (sched.next_pid + 1) % 2 ^ 32;
    } in
    let s1 = give_dir 8 (set_scheduler numbered s) in
    let ((f, r, b, i), c) = give_dir-SamePlaces 8 (set_scheduler numbered s) in
    enter_task1-OnlyFree ticks ticks' 8 (s1.dir 8) eight s1
      (
        f ∙ ap (remove 8) free,
        r ∙ ap (remove 8) ready,
        (λ j. ap (λ (g : ℕ → List ℕ). g j) b ∙ ap (remove 8) (empty j)),
        i ∙ idle,
      )
      (ap (λ l. start_task1 ticks ticks' l s) (sym free) ∙ h)

-- Task 8 runs, and every other one is free.
abbrev first_places : ℕ → Option Queue
first_places t = if t == 8 then none else some free_queue

-- Nothing stands in another queue.
elsewhere :
    (t : ℕ) (q : Queue)
    → (is_at (some free_queue) q ≡ false)
    → count t [] ≡ (if is_at (first_places t) q then 1 else 0)
unfolding count
elsewhere t q other = elim (Bool-cases (t == 8)) [
  | inl eighth ↦ rw eighth refl
  | inr below ↦ rw (below, other) refl
]

abbrev counted : ℕ → Bool
counted t = count t eight == (if is_at (first_places t) free_queue then 1 else 0)

eight-counted : (t : ℕ) → t < 9 → counted t ≡ true
unfolding count tested_below
eight-counted t small = tested_below_at 9 counted t refl small

first_queued : (s : Scheduler) → OnlyFree eight s → AreQueued first_places s
unfolding count
first_queued s (free, ready, empty, idle) t (small, busy) free_queue =
    let unequal : t ≢ 9 = λ e. busy (e ∙ sym idle) in
    let below : t < 9 = omega (arith, small, unequal) in
    ap (count t) free ∙ (==_iff _ _).0 (eight-counted t below)
first_queued s (free, ready, empty, idle) t ordinary ready_queue =
    ap (count t) ready ∙ elsewhere t ready_queue refl
first_queued s (free, ready, empty, idle) t ordinary (blocked_queue i) =
    ap (count t) (empty i) ∙ elsewhere t (blocked_queue i) refl

OnlyFree-Placed : (s : Scheduler) → OnlyFree eight s → s.current ≡ 8 → Placed s
OnlyFree-Placed s only now = record {
  place = first_places;
  queued = first_queued s only;
  running = λ t ordinary. (elim (Bool-cases (t == 8)) [
    | inl eighth ↦ rw (now, eighth) refl
    | inr below ↦ rw (now, below) refl
  ]);
}

init_task1-Placed :
    (cpu_idle ticks ticks' : ℕ) (s : Processes) {s1 s2 : Processes}
    → ((i : ℕ) → (scheduler s).blocked i ≡ [])
    → init_idle cpu_idle ticks ticks' (set_scheduler (init_sched (scheduler s)) s) ≡ ok s1
    → init_task1 ticks ticks' s1 ≡ ok s2
    → Placed (record (scheduler s2) { current = 8 })
init_task1-Placed cpu_idle ticks ticks' s empty h h' =
    let only =
      init_task1-OnlyFree ticks ticks' _ (init_idle-OnlyFree cpu_idle ticks ticks' s empty h) h' in
    OnlyFree-Placed _ only refl

first_tasks :
    (cpu_idle ticks ticks' : ℕ) (s : Processes)
    → (s1 s2 : Processes) × (init_idle cpu_idle ticks ticks'
          (set_scheduler (init_sched (scheduler s)) s)
        ≡ ok s1)
      × (init_task1 ticks ticks' s1 ≡ ok s2)
unfolding init_idle init_sched add_tasks remove init_task1 give_dir allocate_dir free_dir
first_tasks cpu_idle ticks ticks' s = (_, _, refl, refl)

-- Let no task wait for a semaphore when the kernel starts. Then `init_sched`, `init_idle` and
-- `init_task1` succeed, and with task 8, that of `init_task1`, on the processor, every sequence of
-- ticks of the clock, forks, clones, exits, and waits, signals and destructions of semaphores leaves
-- each of the ten tasks but the idle one in one place: it either runs, or stands once in one queue and
-- in no other.
pub Steps-init_task1 :
    (cpu_idle ticks ticks' : ℕ) (s : Processes)
    → ((i : ℕ) → (scheduler s).blocked i ≡ [])
    → (s1 s2 : Processes) × (init_idle cpu_idle ticks ticks'
          (set_scheduler (init_sched (scheduler s)) s)
        ≡ ok s1)
      × (init_task1 ticks ticks' s1 ≡ ok s2)
      × ((s' : Processes)
          → Steps (set_scheduler (record (scheduler s2) { current = 8 }) s2) s'
          → Placed (scheduler s'))
Steps-init_task1 cpu_idle ticks ticks' s empty =
    let (s1, s2, idle, task1) = first_tasks cpu_idle ticks ticks' s in
    let placed = init_task1-Placed cpu_idle ticks ticks' s empty idle task1 in
    (s1, s2, idle, task1, λ s' steps. Steps-Placed steps placed)
