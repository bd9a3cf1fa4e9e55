-- ===== src/Libc/Calls.antt =====
-- The calls on semaphores, from zeos_full/libc.c through the routines of zeos_full/sys.c to
-- zeos_full/sem.c.
use ze_os_filesystem.Base.{
  ℕ, ◌≡◌, refl, List, [], ◌∷◌, ◌++◌, ◌∉◌, true, none, some, Result, ok, fault, ◌∙◌, ap,
}
use ze_os_filesystem.Base.Int.{ℤ, pos, negsuc, neg}
use ze_os_filesystem.Sem
use ze_os_filesystem.Sem.{Semaphores, get_semafor, in_use, to_unsigned, einval}
use ze_os_filesystem.Sem.Order.{sem_signal-first}
use ze_os_filesystem.Libc.{
  Handler, sys_sem_init, sys_sem_signal, sys_sem_destroy, User, answer, sem_signal,
}
use ze_os_filesystem.Libc.Reach.{answer-pos, answer-neg, process_calls_reach}

-- The kernel's routines for the calls that act on semaphores and return at once. No other call is
-- part of this kernel.
unfoldable pub semaphore_calls : Handler → List ℤ → Semaphores → Result (ℤ × Semaphores)
semaphore_calls sys_sem_init (n_sem ∷ value ∷ []) s = ok (Sem.sem_init n_sem (to_unsigned value) s)
semaphore_calls sys_sem_signal (n_sem ∷ []) s = ok (Sem.sem_signal n_sem s)
semaphore_calls sys_sem_destroy (n_sem ∷ []) s = Sem.sem_destroy n_sem s
semaphore_calls _ _ s = fault

sem_signal-unknown :
    (n_sem : ℤ) (s : Semaphores)
    → get_semafor n_sem s ≡ none
    → Sem.sem_signal n_sem s ≡ (neg einval, s)
unfolding Sem.sem_signal
sem_signal-unknown n_sem s unknown = rw (unknown, Sem.sem_signal) refl

-- A process's `sem_signal` of an unknown semaphore returns -1, sets `errno` to `EINVAL`, and changes
-- nothing in the kernel. Of a semaphore in use for which the tasks `p ∷ ps` wait, `p` among them once
-- and not ready, it returns 0, leaves `errno` as it is, and moves `p` from the front of the waiting
-- tasks to the end of the ready ones.
pub sem_signal-errno :
    (n_sem : ℤ) (u : User Semaphores)
    → (get_semafor n_sem u.kernel ≡ none
        → sem_signal semaphore_calls n_sem u ≡ ok (negsuc 0, record u { errno = pos einval }))
      × ((i p : ℕ) (ps : List ℕ)
          → get_semafor n_sem u.kernel ≡ some i
          → in_use (u.kernel.semafors i) ≡ true
          → u.kernel.scheduler.blocked i ≡ p ∷ ps
          → p ∉ ps
          → p ∉ u.kernel.scheduler.readyqueue
          → (s' : Semaphores) × (sem_signal semaphore_calls n_sem u
              ≡ ok (pos 0, record u { kernel = s' }))
            × (s'.scheduler.blocked i ≡ ps)
            × (s'.scheduler.readyqueue ≡ u.kernel.scheduler.readyqueue ++ p ∷ []))
unfolding semaphore_calls
sem_signal-errno n_sem u =
    let reach = (process_calls_reach semaphore_calls n_sem n_sem).7 u in
    (
      λ unknown.
          reach
          ∙ ap (λ r. ok (answer r u.errno)) (sem_signal-unknown n_sem u.kernel unknown)
          ∙ ap ok (answer-neg 21 u.kernel u.errno),
      λ i p ps is used waits once out.
          let (s', e, rest, ready, _) =
            sem_signal-first n_sem u.kernel i p ps is used waits once out in
          (
            s',
            reach ∙ ap (λ r. ok (answer r u.errno)) e ∙ ap ok (answer-pos 0 s' u.errno),
            rest,
            ready,
          ),
    )
