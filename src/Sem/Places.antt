-- ===== src/Sem/Places.antt =====
-- The calls of zeos_full/sem.c leave every task in one place.
use ze_os_filesystem.Base.{
  ℕ, zero, suc, ◌+◌, ◌≡◌, ◌≢◌, refl, ◌&&◌, ltb, ==_self, List, [], ◌∷◌, ◌∈◌, Bool-cases, List-cases,
  Option-cases, inl, inr, ◌∙◌, subst, arith, ok, ok-injective, >>=-eq-ok, ◌>>=◌,
}
use ze_os_filesystem.Base.Int.{ℤ, pos, negsuc, eq_ℤ, add_int}
use ze_os_filesystem.Sched.{ready_queue, blocked_queue, list_del, list_add_tail}
use ze_os_filesystem.Sched.Places.{Placed, IsOrdinary, moved-Placed, waiting-still}
use ze_os_filesystem.Sched.Switch.{yield-Placed}
use ze_os_filesystem.Sem.{
  Semaphores, get_semafor, in_use, pid, set_sem, no_id, sem_wait, sem_signal, wake_all,
  internal_sem_destroy, sem_destroy, destroy_owned, destroy_owned_sems, n_semafors,
}
use ze_os_filesystem.Sem.Invariant.{second}

pub sem_signal-Placed :
    (n_sem : ℤ) (s : Semaphores) → Placed s.scheduler → Placed (sem_signal n_sem s).1.scheduler
unfolding sem_signal
sem_signal-Placed n_sem s placed = elim (Option-cases (get_semafor n_sem s)) [
  | inl missing ↦ rw (missing, sem_signal) placed
  | inr (i, is) ↦ elim (Bool-cases (in_use (s.semafors i))) [
    | inr unused ↦ rw (is, unused, sem_signal) placed
    | inl used ↦ elim (List-cases (s.scheduler.blocked i)) [
      | inl none_wait ↦ rw (is, used, none_wait, sem_signal) placed
      | inr (p, ps, wait) ↦
          let first : p ∈ s.scheduler.blocked i = rw (wait, ==_self p) refl in
          rw (is, used, wait, sem_signal)
            (moved-Placed p ready_queue s.scheduler placed
              (waiting-still p (blocked_queue i) s.scheduler placed first))
    ]
  ]
]

pub sem_wait-Placed :
    (ticks ticks' : ℕ) (n_sem : ℤ) (s : Semaphores)
    → Placed s.scheduler
    → Placed (sem_wait ticks ticks' n_sem s).1.scheduler
unfolding sem_wait
sem_wait-Placed ticks ticks' n_sem s placed = elim (Option-cases (get_semafor n_sem s)) [
  | inl missing ↦ rw (missing, sem_wait) placed
  | inr (i, is) ↦ elim (Bool-cases (in_use (s.semafors i))) [
    | inr unused ↦ rw (is, unused, sem_wait) placed
    | inl used ↦ elim (Bool-cases (ltb 0 (s.semafors i).count)) [
      | inl positive ↦ rw (is, used, positive, sem_wait) placed
      | inr nothing ↦
          rw (is, used, nothing, sem_wait)
            (yield-Placed ticks ticks' (blocked_queue i) s.scheduler placed)
    ]
  ]
]

-- Every task in one place, and the running one the same.
abbrev pub Keeps : Semaphores → Semaphores → Type 0
Keeps s s' = Placed s'.scheduler × (s'.scheduler.current ≡ s.scheduler.current)

wake_all-Placed :
    (i : ℕ) (ps : List ℕ) (s : Semaphores) {s' : Semaphores}
    → Placed s.scheduler
    → ((t : ℕ) → t ∈ ps → IsOrdinary t s.scheduler → t ≢ s.scheduler.current)
    → wake_all i ps s ≡ ok s'
    → Keeps s s'
unfolding wake_all
wake_all-Placed i [] s placed still h = subst (λ r. Keeps s r) (ok-injective h) (placed, refl)
wake_all-Placed i (p ∷ ps) s placed still h =
    let (v, e, rest) = >>=-eq-ok (add_int ((s.semafors i).used) (negsuc 0)) _ h in
    let first : p ∈ (p ∷ ps) = rw (==_self p) refl in
    let s1 = record (set_sem i (record (s.semafors i) { used = v }) s) {
      scheduler = list_add_tail p ready_queue (list_del p s.scheduler);
    } in
    wake_all-Placed i ps s1 (moved-Placed p ready_queue s.scheduler placed (still p first))
      (λ t mem. still t (ground arith)) rest

internal_sem_destroy-Placed :
    (i : ℕ) (s : Semaphores) {r : ℤ} {s' : Semaphores}
    → Placed s.scheduler
    → internal_sem_destroy i s ≡ ok (r, s')
    → Keeps s s'
unfolding internal_sem_destroy
internal_sem_destroy-Placed i s placed h = elim (Bool-cases (in_use (s.semafors i))) [
  | inr unused ↦ subst (λ r. Keeps s r) (second (rw unused at h)) (placed, refl)
  | inl used ↦ elim (Bool-cases (eq_ℤ (s.semafors i).owner (pid s))) [
    | inr foreign ↦ subst (λ r. Keeps s r) (second (rw (used, foreign) at h)) (placed, refl)
    | inl own ↦
        let sem = record (s.semafors i) { used = pos 0; id = no_id } in
        let (s1, e, last) =
          >>=-eq-ok (wake_all i (s.scheduler.blocked i) (set_sem i sem s)) _
            (rw (used, own) at h) in
        subst (λ r. Keeps s r) (second last)
          (wake_all-Placed i (s.scheduler.blocked i) (set_sem i sem s) placed
            (λ t mem. waiting-still t (blocked_queue i) s.scheduler placed mem) e)
  ]
]

pub sem_destroy-Placed :
    (n_sem : ℤ) (s : Semaphores) {r : ℤ} {s' : Semaphores}
    → Placed s.scheduler
    → sem_destroy n_sem s ≡ ok (r, s')
    → Keeps s s'
unfolding sem_destroy
sem_destroy-Placed n_sem s placed h = elim (Option-cases (get_semafor n_sem s)) [
  | inl missing ↦ subst (λ r. Keeps s r) (second (rw (missing, sem_destroy) at h)) (placed, refl)
  | inr (i, is) ↦ internal_sem_destroy-Placed i s placed (rw (is, sem_destroy) at h)
]

destroy_owned-Placed :
    (number : ℤ) (n i : ℕ) (s : Semaphores) {s' : Semaphores}
    → Placed s.scheduler
    → destroy_owned number n i s ≡ ok s'
    → Keeps s s'
unfolding destroy_owned
destroy_owned-Placed number zero i s placed h =
    subst (λ r. Keeps s r) (ok-injective h) (placed, refl)
destroy_owned-Placed number (suc n) i s placed h =
    elim (Bool-cases (in_use (s.semafors i) && eq_ℤ ((s.semafors i).owner) number)) [
      | inr foreign ↦ destroy_owned-Placed number n (i + 1) s placed (rw foreign at h)
      | inl own ↦
          let (s1, e, rest) =
            >>=-eq-ok (internal_sem_destroy i s >>= λ r. ok (r.1)) _ (rw own at h) in
          let (r, d, last) = >>=-eq-ok (internal_sem_destroy i s) _ e in
          let (placed1, same) =
            subst (λ r. Keeps s r) (ok-injective last) (internal_sem_destroy-Placed i s placed d) in
          let (placed2, same') = destroy_owned-Placed number n (i + 1) s1 placed1 rest in
          (placed2, same' ∙ same)
    ]

pub destroy_owned_sems-Placed :
    (number : ℤ) (s : Semaphores) {s' : Semaphores}
    → Placed s.scheduler
    → destroy_owned_sems number s ≡ ok s'
    → Keeps s s'
unfolding destroy_owned_sems
destroy_owned_sems-Placed number s placed h = destroy_owned-Placed number n_semafors 0 s placed h
