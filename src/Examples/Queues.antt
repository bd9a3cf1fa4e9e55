-- ===== src/Examples/Queues.antt =====
-- The small kernel: the scheduler and the semaphores.
use ze_os_filesystem.Base.{◌≡◌, refl, [], ◌∷◌, arith, ok, some}
use ze_os_filesystem.Base.Int.{neg, pos}
use ze_os_filesystem.Sched.{Scheduler, scheduling}
use ze_os_filesystem.Sched.Policy.{scheduling-expired}
use ze_os_filesystem.Sem.{
  sem_destroy, no_id, Semaphores, initialize_sem, get_semafor, find_id, sem_init, sem_signal,
}
use ze_os_filesystem.Sem.Order.{sem_signal-first, sem_destroy-Woken}
use ze_os_filesystem.Sem.Invariant.{NoneWait}
use ze_os_filesystem.Sem.Runs.{start, then_call, init, signal, Calls-NoneWait}
use ze_os_filesystem.Examples.{scheduler, semaphores}

scheduling-expired_example :
    (s' : Scheduler) × (scheduling 5 6 scheduler ≡ ok s')
    × (s'.current ≡ 2)
    × (s'.readyqueue ≡ 3 ∷ 1 ∷ [])
    × (s'.quantum_left ≡ pos 30)
scheduling-expired_example =
    scheduling-expired 5 6 2 (3 ∷ []) scheduler refl (omega arith) refl refl refl

first_semaphore : get_semafor (pos 0) semaphores ≡ some 0
unfolding get_semafor find_id
first_semaphore = refl

sem_signal-first_example :
    (s' : Semaphores) × (sem_signal (pos 0) semaphores ≡ (pos 0, s'))
    × (s'.scheduler.blocked 0 ≡ 5 ∷ [])
    × (s'.scheduler.readyqueue ≡ 2 ∷ 3 ∷ 4 ∷ [])
    × (s'.semafors ≡ semaphores.semafors)
sem_signal-first_example =
    sem_signal-first (pos 0) semaphores 0 4 (5 ∷ []) first_semaphore refl refl refl refl

abbrev two_calls : Semaphores
two_calls = (sem_signal (pos 7) ((sem_init (pos 7) 1 (initialize_sem semaphores)).1)).1

Calls-NoneWait_example : NoneWait two_calls
Calls-NoneWait_example =
    Calls-NoneWait semaphores two_calls
      (then_call (then_call start (init (pos 7) 1)) (signal (pos 7)))

sem_destroy-Woken_example :
    (s' : Semaphores) × (sem_destroy (pos 0) semaphores ≡ ok (pos 0, s'))
    × ((s'.semafors 0).used ≡ neg 2)
    × ((s'.semafors 0).id ≡ no_id)
    × (s'.scheduler.blocked 0 ≡ [])
    × (s'.scheduler.readyqueue ≡ 2 ∷ 3 ∷ 4 ∷ 5 ∷ [])
sem_destroy-Woken_example =
    sem_destroy-Woken (pos 0) semaphores 0 (4 ∷ 5 ∷ []) first_semaphore refl refl refl (omega arith)
      (refl, (refl, tt)) (λ k m. ground arith)
