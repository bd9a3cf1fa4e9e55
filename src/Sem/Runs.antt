-- ===== src/Sem/Runs.antt =====
-- Sequences of calls on the semaphores of zeos_full/sem.c.
use ze_os_filesystem.Base.{
  ℕ, zero, suc, ◌+◌, ◌≡◌, refl, ltb, leb, ◌&&◌, if◌then◌else◌, List, [], ◌∷◌, arith, ok, ==_self,
  ◌∙◌, true, false, >>=-eq-ok, ok-injective, Bool-cases, Option-cases, subst, ltb→lt, ltb→le, inl,
  inr, sym,
}
use ze_os_filesystem.Base.Int.{ℤ, ◌+ℤ◌, fits_int, pos, negsuc, eq_ℤ, ltb_ℤ, add_int}
use ze_os_filesystem.Sched.{sched_next_rr}
use ze_os_filesystem.Sem.{
  Semaphores, set_sem, n_semafors, pid, get_semafor, in_use, no_id, initialize_sem, clear_sems,
  unused_sem, sem_init, sem_wait, sem_wait_rest, sem_signal, wake_all, internal_sem_destroy,
  sem_destroy,
}
use ze_os_filesystem.Sem.Invariant.{
  NoneWait, second, requeued, requeued-NoneWait, set_sem-NoneWait, sem_signal-NoneWait,
  sem_init-NoneWait, sem_wait-NoneWait, sched_next_rr-blocked,
}

stays_below :
    (a v : ℤ) → ltb_ℤ (pos 0) a ≡ false → add_int a (negsuc 0) ≡ ok v → ltb_ℤ (pos 0) v ≡ false
unfolding add_int ◌+ℤ◌
stays_below (pos zero) v h e = subst (λ w. ltb_ℤ (pos 0) w ≡ false) (ok-injective e) refl
stays_below (pos (suc n)) v h e = absurd (omega (arith, ltb→le _ _ h))
stays_below (negsuc n) v h e =
    let c : ℤ = negsuc n +ℤ negsuc 0 in
    let value : c ≡ negsuc (suc n) = ground arith in
    elim (Bool-cases (fits_int c)) [
      | inl fits ↦
          subst (λ w. ltb_ℤ (pos 0) w ≡ false) (sym value ∙ ok-injective (rw fits at e))
            (ground arith)
      | inr out ↦ absurd (let never = rw out at e in cc)
    ]

wake_all-NoneWait :
    (i : ℕ) (ps : List ℕ) (s : Semaphores) {s' : Semaphores}
    → in_use (s.semafors i) ≡ false
    → NoneWait s
    → wake_all i ps s ≡ ok s'
    → NoneWait s'
unfolding wake_all requeued
wake_all-NoneWait i [] s unused inv h = subst NoneWait (ok-injective h) inv
wake_all-NoneWait i (p ∷ ps) s unused inv h =
    let (v, e, rest) = >>=-eq-ok (add_int ((s.semafors i).used) (negsuc 0)) _ h in
    let below = stays_below ((s.semafors i).used) v unused e in
    let sem = record (s.semafors i) { used = v } in
    wake_all-NoneWait i ps (requeued p (set_sem i sem s)) (rw (==_self i) below)
      (requeued-NoneWait p (set_sem i sem s)
        (set_sem-NoneWait i sem s (λ within used positive. absurd (cc)) inv))
      rest

internal_sem_destroy-NoneWait :
    (i : ℕ) (s : Semaphores) {r : ℤ} {s' : Semaphores}
    → NoneWait s
    → internal_sem_destroy i s ≡ ok (r, s')
    → NoneWait s'
unfolding internal_sem_destroy
internal_sem_destroy-NoneWait i s inv h = elim (Bool-cases (in_use (s.semafors i))) [
  | inr unused ↦ subst NoneWait (second (rw unused at h)) inv
  | inl used ↦ elim (Bool-cases (eq_ℤ (s.semafors i).owner (pid s))) [
    | inr foreign ↦ subst NoneWait (second (rw (used, foreign) at h)) inv
    | inl own ↦
        let sem = record (s.semafors i) { used = pos 0; id = no_id } in
        let (s1, e, last) =
          >>=-eq-ok (wake_all i (s.scheduler.blocked i) (set_sem i sem s)) _
            (rw (used, own) at h) in
        subst NoneWait (second last) (
          wake_all-NoneWait i (s.scheduler.blocked i) (set_sem i sem s) (rw (==_self i) refl)
            (set_sem-NoneWait i sem s (λ within used positive. absurd (cc)) inv) e)
  ]
]

sem_destroy-NoneWait :
    (n_sem : ℤ) (s : Semaphores) {r : ℤ} {s' : Semaphores}
    → NoneWait s
    → sem_destroy n_sem s ≡ ok (r, s')
    → NoneWait s'
unfolding sem_destroy
sem_destroy-NoneWait n_sem s inv h = elim (Option-cases (get_semafor n_sem s)) [
  | inl missing ↦ subst NoneWait (second (rw (missing, sem_destroy) at h)) inv
  | inr (i, is) ↦ internal_sem_destroy-NoneWait i s inv (rw (is, sem_destroy) at h)
]

raised : (a v : ℤ) → ltb_ℤ a (pos 0) ≡ true → add_int a (pos 1) ≡ ok v → ltb_ℤ (pos 0) v ≡ false
unfolding add_int ◌+ℤ◌
raised (pos n) v h e = absurd (omega (arith, ltb→lt _ _ h))
raised (negsuc zero) v h e = subst (λ w. ltb_ℤ (pos 0) w ≡ false) (ok-injective e) refl
raised (negsuc (suc n)) v h e =
    let c : ℤ = negsuc (suc n) +ℤ pos 1 in
    let value : c ≡ negsuc n = ground arith in
    elim (Bool-cases (fits_int c)) [
      | inl fits ↦
          subst (λ w. ltb_ℤ (pos 0) w ≡ false) (sym value ∙ ok-injective (rw fits at e))
            (ground arith)
      | inr out ↦ absurd (let never = rw out at e in cc)
    ]

sem_wait_rest-NoneWait :
    (i : ℕ) (s : Semaphores) {r : ℤ} {s' : Semaphores}
    → NoneWait s
    → sem_wait_rest i s ≡ ok (r, s')
    → NoneWait s'
unfolding sem_wait_rest
sem_wait_rest-NoneWait i s inv h = elim (Bool-cases (ltb_ℤ ((s.semafors i).used) (pos 0))) [
  | inr kept ↦ subst NoneWait (second (rw kept at h)) inv
  | inl gone ↦
      let (v, e, last) = >>=-eq-ok (add_int ((s.semafors i).used) (pos 1)) _ (rw gone at h) in
      let below = raised ((s.semafors i).used) v gone e in
      let sem = record (s.semafors i) { used = v } in
      subst NoneWait (second last)
        (set_sem-NoneWait i sem s (λ within used positive. absurd (cc)) inv)
]

-- A call on the semaphores, or a choice of the scheduler's that lies between two calls.
pub data Call : Semaphores → Semaphores → Type 0 where
  init : {s : Semaphores} (n_sem : ℤ) (value : ℕ) → Call s ((sem_init n_sem value s).1)
  wait :
      {s : Semaphores} (ticks ticks' : ℕ) (n_sem : ℤ) → Call s ((sem_wait ticks ticks' n_sem s).1)
  signal : {s : Semaphores} (n_sem : ℤ) → Call s ((sem_signal n_sem s).1)
  destroy : {s s' : Semaphores} {r : ℤ} (n_sem : ℤ) → sem_destroy n_sem s ≡ ok (r, s') → Call s s'
  wake : {s s' : Semaphores} {r : ℤ} (i : ℕ) → sem_wait_rest i s ≡ ok (r, s') → Call s s'
  reschedule :
      {s : Semaphores} (ticks ticks' : ℕ)
      → Call s (record s { scheduler = sched_next_rr ticks ticks' s.scheduler })

pub data Calls (s : Semaphores) : Semaphores → Type 0 where
  start : Calls s s
  then_call : {s1 s2 : Semaphores} → Calls s s1 → Call s1 s2 → Calls s s2

Call-NoneWait : {s s' : Semaphores} → Call s s' → NoneWait s → NoneWait s'
Call-NoneWait (init {s} n_sem value) inv = sem_init-NoneWait n_sem value s inv
Call-NoneWait (wait {s} ticks ticks' n_sem) inv = sem_wait-NoneWait ticks ticks' n_sem s inv
Call-NoneWait (signal {s} n_sem) inv = sem_signal-NoneWait n_sem s inv
Call-NoneWait (destroy {s} n_sem e) inv = sem_destroy-NoneWait n_sem s inv e
Call-NoneWait (wake {s} i e) inv = sem_wait_rest-NoneWait i s inv e
Call-NoneWait (reschedule {s} ticks ticks') inv = λ j small used positive.
    sched_next_rr-blocked ticks ticks' s.scheduler j (inv j small used positive)

clear_sems_lem :
    (n i j : ℕ) (s : Semaphores)
    → (clear_sems n i s).semafors j
      ≡ (if leb i j && ltb j (i + n) then unused_sem else s.semafors j)
unfolding clear_sems
clear_sems_lem zero i j s = ground arith
clear_sems_lem (suc n) i j s = clear_sems_lem n (i + 1) j _ ∙ ground arith

initialize_sem-NoneWait : (s : Semaphores) → NoneWait (initialize_sem s)
unfolding initialize_sem
initialize_sem-NoneWait s j small used positive =
    let inside : (leb 0 j && ltb j (0 + n_semafors)) ≡ true = ground arith in
    let clear = clear_sems_lem n_semafors 0 j s in
    absurd (let never = rw (clear, inside) at used in cc)

-- After `initialize_sem` and any sequence of calls of `sem_init`, `sem_wait`, `sem_signal` and
-- `sem_destroy`, of returns from a wait, and of choices of the next task: no task waits for a semaphore that is in use and
-- has a positive count.
pub Calls-NoneWait : (s s' : Semaphores) → Calls (initialize_sem s) s' → NoneWait s'
Calls-NoneWait s s' start = initialize_sem-NoneWait s
Calls-NoneWait s s' (then_call {s1} calls last) = Call-NoneWait last (Calls-NoneWait s s1 calls)
