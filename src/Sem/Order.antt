-- ===== src/Sem/Order.antt =====
-- The order in which a semaphore of zeos_full/sem.c wakes its tasks.
use ze_os_filesystem.Base.{
  ℕ, zero, suc, ◌+◌, ◌^◌, ◌<◌, ◌≡◌, refl, some, true, List, [], ◌∷◌, ◌++◌, ◌∈◌, ◌∉◌, has-append,
  ne_of_mem, Distinct, length, append-nil, append_assoc, arith, ap, sym, ◌∙◌, ==_self, ok, ◌>>=◌,
}
use ze_os_filesystem.Base.Int.{ℤ, ◌+ℤ◌, pos, negsuc, neg, eq_ℤ, add_int}
use ze_os_filesystem.Sched.{ready_queue, remove, list_del, list_add_tail}
use ze_os_filesystem.Sched.Policy.{remove-fresh, remove-first}
use ze_os_filesystem.Sem.{
  Semaphores, set_sem, get_semafor, in_use, sem_signal, wake_all, internal_sem_destroy, sem_destroy,
  pid, no_id,
}

-- Given a semaphore in use for which the tasks `p ∷ ps` wait, `p` among them once and not ready:
-- `sem_signal` returns 0 and moves `p` from the front of the waiting tasks to the end of the ready
-- ones, and the count stays as it was.
pub sem_signal-first :
    (n_sem : ℤ) (s : Semaphores) (i p : ℕ) (ps : List ℕ)
    → get_semafor n_sem s ≡ some i
    → in_use (s.semafors i) ≡ true
    → s.scheduler.blocked i ≡ p ∷ ps
    → p ∉ ps
    → p ∉ s.scheduler.readyqueue
    → (s' : Semaphores) × (sem_signal n_sem s ≡ (pos 0, s'))
      × (s'.scheduler.blocked i ≡ ps)
      × (s'.scheduler.readyqueue ≡ s.scheduler.readyqueue ++ p ∷ [])
      × (s'.semafors ≡ s.semafors)
unfolding sem_signal
sem_signal-first n_sem s i p ps is used waits once out = (
  record s { scheduler = list_add_tail p ready_queue (list_del p s.scheduler) },
  rw (is, used, waits, sem_signal) refl,
  ap (remove p) waits ∙ remove-first p ps once,
  ap (λ q. q ++ p ∷ []) (remove-fresh p s.scheduler.readyqueue out),
  refl,
)

pub add_int-neg : (u : ℕ) → u < 2 ^ 31 → add_int (neg u) (negsuc 0) ≡ ok (neg (u + 1))
unfolding add_int ◌+ℤ◌
add_int-neg zero h = refl
add_int-neg (suc u) h = let next : suc u + 1 ≡ suc (suc u) = omega arith in rw next (ground arith)

-- The state that is left once the tasks `ps` are awake.
pub record Woken (i u : ℕ) (ps : List ℕ) (s s' : Semaphores) : Type 0 where
  pub counted : (s'.semafors i).used ≡ neg (u + length ps)
  pub unused : (s'.semafors i).id ≡ (s.semafors i).id
  pub none_wait : s'.scheduler.blocked i ≡ []
  pub ready : s'.scheduler.readyqueue ≡ s.scheduler.readyqueue ++ ps

wake_all-Woken :
    (i u : ℕ) (ps : List ℕ) (s : Semaphores)
    → (s.semafors i).used ≡ neg u
    → u + length ps < 2 ^ 31
    → s.scheduler.blocked i ≡ ps
    → Distinct ps
    → ((k : ℕ) → k ∈ ps → k ∉ s.scheduler.readyqueue)
    → (s' : Semaphores) × (wake_all i ps s ≡ ok s') × Woken i u ps s s'
unfolding wake_all
wake_all-Woken i u [] s used few waits d out = (
  s,
  refl,
  record {
    counted = used ∙ ap neg (omega arith);
    unused = refl;
    none_wait = waits;
    ready = sym (append-nil s.scheduler.readyqueue);
  },
)
wake_all-Woken i u (p ∷ ps) s used few waits (once, d) out =
    let sem = record (s.semafors i) { used = neg (u + 1) } in
    let s1 = record (set_sem i sem s) {
      scheduler = list_add_tail p ready_queue (list_del p s.scheduler);
    } in
    let away : remove p s.scheduler.readyqueue ≡ s.scheduler.readyqueue =
      remove-fresh p s.scheduler.readyqueue (out p (ground arith)) in
    let (s', e, w) =
      wake_all-Woken i (u + 1) ps s1 (rw (==_self i) refl) (omega arith)
        (ap (remove p) waits ∙ remove-first p ps once) d
        (λ k m.
          let apart = ne_of_mem p k ps once m in
          rw (away, has-append k (p ∷ []) s.scheduler.readyqueue, out k (ground arith))
            (ground arith)) in
    (
      s',
      rw (used, add_int-neg u (omega arith)) e,
      record {
        counted = w.counted ∙ ap neg (omega arith);
        unused = w.unused ∙ rw (==_self i) refl;
        none_wait = w.none_wait;
        ready =
            w.ready
            ∙ ap (λ q. (q ++ p ∷ []) ++ ps) away
            ∙ append_assoc s.scheduler.readyqueue (p ∷ []) ps;
      },
    )

-- Given a semaphore in use that the running task owns, and fewer than 2 ^ 31 waiting tasks, all
-- different and none ready: `sem_destroy` returns 0, no task waits any more, all of them follow the
-- ready ones in the order in which they waited, and `used` counts them below 0.
pub sem_destroy-Woken :
    (n_sem : ℤ) (s : Semaphores) (i : ℕ) (ps : List ℕ)
    → get_semafor n_sem s ≡ some i
    → in_use (s.semafors i) ≡ true
    → eq_ℤ (s.semafors i).owner (pid s) ≡ true
    → s.scheduler.blocked i ≡ ps
    → length ps < 2 ^ 31
    → Distinct ps
    → ((k : ℕ) → k ∈ ps → k ∉ s.scheduler.readyqueue)
    → (s' : Semaphores) × (sem_destroy n_sem s ≡ ok (pos 0, s'))
      × ((s'.semafors i).used ≡ neg (length ps))
      × ((s'.semafors i).id ≡ no_id)
      × (s'.scheduler.blocked i ≡ [])
      × (s'.scheduler.readyqueue ≡ s.scheduler.readyqueue ++ ps)
unfolding sem_destroy internal_sem_destroy
sem_destroy-Woken n_sem s i ps is used own waits few d out =
    let sem = record (s.semafors i) { used = pos 0; id = no_id } in
    let (s', e, w) =
      wake_all-Woken i 0 ps (set_sem i sem s) (rw (==_self i) refl) (omega arith) waits d out in
    (
      s',
      rw (is, used, own, waits, e, sem_destroy, ◌>>=◌) refl,
      w.counted ∙ ap neg (omega arith),
      w.unused ∙ rw (==_self i) refl,
      w.none_wait,
      w.ready,
    )
