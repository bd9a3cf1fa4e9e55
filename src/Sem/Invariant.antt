-- ===== src/Sem/Invariant.antt =====
-- No task waits for a semaphore of zeos_full/sem.c whose count is positive.
use ze_os_filesystem.Base.{
  ℕ, ◌+◌, ◌-◌, ◌%◌, ◌^◌, ◌<◌, ◌≡◌, ◌≢◌, refl, ltb, ◌==◌, some, List, [], arith, ok, ==_self, ==_ne,
  ap, ◌∙◌, update, true, Result, ok-injective, Bool-cases, Option-cases, List-cases, ◌⊎◌, subst,
  ltb→lt, ltb→le, inl, inr, sym,
}
use ze_os_filesystem.Base.Int.{ℤ, pos}
use ze_os_filesystem.Sched.{
  Scheduler, ready_queue, blocked_queue, remove, list_del, list_add_tail, update_process_state_rr,
  next_task, sched_next_rr,
}
use ze_os_filesystem.Sem.{
  Sem, Semaphores, set_sem, n_semafors, to_unsigned, pid, get_semafor, get_free_semafor, in_use,
  sem_init, sem_wait, sem_signal,
}

abbrev pub NoneWait : Semaphores → Type 0
NoneWait s =
    (i : ℕ)
    → i < n_semafors
    → in_use (s.semafors i) ≡ true
    → 0 < (s.semafors i).count
    → s.scheduler.blocked i ≡ []

pub second :
    {r r' : ℤ} {s s' : Semaphores}
    → ◌≡◌ {A = Result (ℤ × Semaphores)} (ok (r, s)) (ok (r', s'))
    → s ≡ s'
second e = ap (λ (p : ℤ × Semaphores). p.1) (ok-injective e)

remove-nil : (t : ℕ) (xs : List ℕ) → xs ≡ [] → remove t xs ≡ []
unfolding remove
remove-nil t xs h = rw h refl

unfoldable pub requeued : ℕ → Semaphores → Semaphores
requeued p s = record s { scheduler = list_add_tail p ready_queue (list_del p s.scheduler) }

pub requeued-NoneWait : (p : ℕ) (s : Semaphores) → NoneWait s → NoneWait (requeued p s)
unfolding requeued
requeued-NoneWait p s inv j small used positive =
    remove-nil p (s.scheduler.blocked j) (inv j small used positive)

-- A semaphore changed where no task waits for it.
pub set_sem-NoneWait :
    (i : ℕ) (sem : Sem) (s : Semaphores)
    → (i < n_semafors → in_use sem ≡ true → 0 < sem.count → s.scheduler.blocked i ≡ [])
    → NoneWait s
    → NoneWait (set_sem i sem s)
set_sem-NoneWait i sem s own inv j small used positive = elim (Bool-cases (j == i)) [
  | inl same ↦
      let here : j ≡ i = ground arith in
      ap s.scheduler.blocked here
      ∙ own (subst (λ k. k < n_semafors) here small) (rw same at used) (rw same at positive)
  | inr other ↦ inv j small (rw other at used) (rw other at positive)
]

sem_signal_cases :
    (n_sem : ℤ) (s : Semaphores)
    → ((sem_signal n_sem s).1 ≡ s)
      ⊎ ((i : ℕ) × (c : ℕ) × (s.scheduler.blocked i ≡ [])
          × ((sem_signal n_sem s).1 ≡ set_sem i (record (s.semafors i) { count = c }) s))
      ⊎ ((p : ℕ) × ((sem_signal n_sem s).1 ≡ requeued p s))
unfolding sem_signal requeued
sem_signal_cases n_sem s = elim (Option-cases (get_semafor n_sem s)) [
  | inl missing ↦ inl (rw (missing, sem_signal) refl)
  | inr (i, is) ↦ elim (Bool-cases (in_use (s.semafors i))) [
    | inr unused ↦ inl (rw (is, unused, sem_signal) refl)
    | inl used ↦ elim (List-cases (s.scheduler.blocked i)) [
      | inl none_wait ↦ inr (
          inl (
            i,
            ((s.semafors i).count + 1) % 2 ^ 32,
            none_wait,
            rw (is, used, none_wait, sem_signal) refl,
          ))
      | inr (p, ps, wait) ↦ inr (inr (p, rw (is, used, wait, sem_signal) refl))
    ]
  ]
]

pub sem_signal-NoneWait :
    (n_sem : ℤ) (s : Semaphores) → NoneWait s → NoneWait ((sem_signal n_sem s).1)
sem_signal-NoneWait n_sem s inv = elim (sem_signal_cases n_sem s) [
  | inl e ↦ subst NoneWait (sym e) inv
  | inr (inl (i, c, none_wait, e)) ↦
      subst NoneWait (sym e) (set_sem-NoneWait i _ s (λ within used positive. none_wait) inv)
  | inr (inr (p, e)) ↦ subst NoneWait (sym e) (requeued-NoneWait p s inv)
]

unblocked : ℕ → Semaphores → Semaphores
unblocked i s = record s {
  scheduler = record (s.scheduler) { blocked = update s.scheduler.blocked i [] };
}

sem_init_cases :
    (n_sem : ℤ) (value : ℕ) (s : Semaphores)
    → ((sem_init n_sem value s).1 ≡ s)
      ⊎ ((i : ℕ) × (sem : Sem) × ((sem_init n_sem value s).1 ≡ set_sem i sem (unblocked i s)))
unfolding sem_init unblocked
sem_init_cases n_sem value s = elim (Option-cases (get_semafor n_sem s)) [
  | inr (i, is) ↦ inl (rw (is, sem_init) refl)
  | inl missing ↦ elim (Option-cases (get_free_semafor s)) [
    | inl full ↦ inl (rw (missing, full, sem_init) refl)
    | inr (i, is) ↦ inr (
      i,
      record { id = to_unsigned n_sem; count = value; owner = pid s; used = pos 1 },
      rw (missing, is, sem_init) refl,
    )
  ]
]

emptied : (f : ℕ → List ℕ) (i j : ℕ) → f j ≡ [] → update f i [] j ≡ []
emptied f i j h = elim (Bool-cases (j == i)) [ inl same ↦ rw same refl | inr other ↦ rw other h ]

pub sem_init-NoneWait :
    (n_sem : ℤ) (value : ℕ) (s : Semaphores) → NoneWait s → NoneWait ((sem_init n_sem value s).1)
unfolding unblocked
sem_init-NoneWait n_sem value s inv = elim (sem_init_cases n_sem value s) [
  | inl e ↦ subst NoneWait (sym e) inv
  | inr (i, sem, e) ↦ subst NoneWait (sym e) (
      set_sem-NoneWait i sem (unblocked i s) (λ within used positive. rw (==_self i) refl)
        (λ j small used positive. emptied s.scheduler.blocked i j (inv j small used positive)))
]

-- A task that goes to wait for semaphore `i`, and the scheduler's choice of the next one.
waits : ℕ → ℕ → ℕ → Semaphores → Semaphores
waits ticks ticks' i s = record s {
  scheduler =
      sched_next_rr ticks ticks'
        (update_process_state_rr s.scheduler.current (some (blocked_queue i)) s.scheduler);
}

sem_wait_cases :
    (ticks ticks' : ℕ) (n_sem : ℤ) (s : Semaphores)
    → ((sem_wait ticks ticks' n_sem s).1 ≡ s)
      ⊎ ((i : ℕ) × (0 < (s.semafors i).count)
          × ((sem_wait ticks ticks' n_sem s).1
              ≡ set_sem i (record (s.semafors i) { count = (s.semafors i).count - 1 }) s))
      ⊎ ((i : ℕ) × ((s.semafors i).count ≡ 0)
          × ((sem_wait ticks ticks' n_sem s).1 ≡ waits ticks ticks' i s))
unfolding sem_wait waits
sem_wait_cases ticks ticks' n_sem s = elim (Option-cases (get_semafor n_sem s)) [
  | inl missing ↦ inl (rw (missing, sem_wait) refl)
  | inr (i, is) ↦ elim (Bool-cases (in_use (s.semafors i))) [
    | inr unused ↦ inl (rw (is, unused, sem_wait) refl)
    | inl used ↦ elim (Bool-cases (ltb 0 (s.semafors i).count)) [
      | inl positive ↦ inr (inl (i, ltb→lt 0 _ positive, rw (is, used, positive, sem_wait) refl))
      | inr nothing ↦
          inr (inr (i, omega (arith, ltb→le 0 _ nothing), rw (is, used, nothing, sem_wait) refl))
    ]
  ]
]

pub sched_next_rr-blocked :
    (ticks ticks' : ℕ) (s : Scheduler) (j : ℕ)
    → s.blocked j ≡ []
    → (sched_next_rr ticks ticks' s).blocked j ≡ []
unfolding sched_next_rr next_task
sched_next_rr-blocked ticks ticks' s j h = elim (List-cases s.readyqueue) [
  | inl nothing ↦ rw nothing h
  | inr (t, ts, some_ready) ↦ rw some_ready (remove-nil t (s.blocked j) h)
]

update_process_state_rr-blocked :
    (t i j : ℕ) (s : Scheduler)
    → j ≢ i
    → s.blocked j ≡ []
    → (update_process_state_rr t (some (blocked_queue i)) s).blocked j ≡ []
unfolding update_process_state_rr
update_process_state_rr-blocked t i j s other h = elim (Bool-cases (t == s.idle_task)) [
  | inl idle ↦ rw idle (remove-nil t (s.blocked j) h)
  | inr busy ↦ rw (busy, ==_ne j i other) (remove-nil t (s.blocked j) h)
]

waits-NoneWait :
    (ticks ticks' i : ℕ) (s : Semaphores)
    → (s.semafors i).count ≡ 0
    → NoneWait s
    → NoneWait (waits ticks ticks' i s)
unfolding waits
waits-NoneWait ticks ticks' i s nothing inv j small used positive =
    let other : j ≢ i =
      λ e. omega (arith, ap (λ (x : ℕ). (s.semafors x).count) e, nothing, positive) in
    sched_next_rr-blocked ticks ticks' _ j (
      update_process_state_rr-blocked s.scheduler.current i j s.scheduler other
        (inv j small used positive))

pub sem_wait-NoneWait :
    (ticks ticks' : ℕ) (n_sem : ℤ) (s : Semaphores)
    → NoneWait s
    → NoneWait ((sem_wait ticks ticks' n_sem s).1)
sem_wait-NoneWait ticks ticks' n_sem s inv = elim (sem_wait_cases ticks ticks' n_sem s) [
  | inl e ↦ subst NoneWait (sym e) inv
  | inr (inl (i, positive, e)) ↦
      let sem = record (s.semafors i) { count = (s.semafors i).count - 1 } in
      subst NoneWait (sym e)
        (set_sem-NoneWait i sem s (λ within used more. inv i within used positive) inv)
  | inr (inr (i, nothing, e)) ↦ subst NoneWait (sym e) (waits-NoneWait ticks ticks' i s nothing inv)
]
