-- ===== src/Examples/Calls.antt =====
-- The theorems on zeos_full/libc.c and zeos_full/zeos_semaphores.c at the small kernel.
use ze_os_filesystem.Base.{
  ℕ, ◌+◌, ◌<◌, ◌≡◌, refl, true, List, [], ◌∷◌, ◌++◌, ◌∉◌, get_elem?, none, some, Result, ok, fault,
  arith,
}
use ze_os_filesystem.Base.Int.{ℤ, pos, negsuc, neg}
use ze_os_filesystem.Sem.{Semaphores, get_semafor, in_use, einval}
use ze_os_filesystem.Libc.{Handler, User, sem_signal, system_call_handler, sys_call_table, enosys}
use ze_os_filesystem.Libc.Reach.{system_call_handler-numbers}
use ze_os_filesystem.Libc.Calls.{semaphore_calls, sem_signal-errno}
use ze_os_filesystem.Zsem.{ZSems, Turn, yields, zeos_sys_sem_destroy, zeos_sys_sem_init}
use ze_os_filesystem.Zsem.Destroy.{rests, destroy-init}
use ze_os_filesystem.Examples.{semaphores, scheduler}

abbrev user : User Semaphores
user = record { errno = pos 0; kernel = semaphores }

sem_signal-errno_example :
    (get_semafor (pos 0) semaphores ≡ none
      → sem_signal semaphore_calls (pos 0) user ≡ ok (negsuc 0, record user { errno = pos einval }))
    × ((i p : ℕ) (ps : List ℕ)
        → get_semafor (pos 0) semaphores ≡ some i
        → in_use (semaphores.semafors i) ≡ true
        → semaphores.scheduler.blocked i ≡ p ∷ ps
        → p ∉ ps
        → p ∉ semaphores.scheduler.readyqueue
        → (s' : Semaphores) × (sem_signal semaphore_calls (pos 0) user
            ≡ ok (pos 0, record user { kernel = s' }))
          × (s'.scheduler.blocked i ≡ ps)
          × (s'.scheduler.readyqueue ≡ semaphores.scheduler.readyqueue ++ p ∷ []))
sem_signal-errno_example = sem_signal-errno (pos 0) user

-- A kernel in which every routine returns 7.
abbrev handle_all : Handler → List ℤ → ℕ → Result (ℤ × ℕ)
handle_all h args k = ok (pos 7, k + 1)

abbrev clone_number : ℕ
clone_number = 20

system_call_handler-numbers_example :
    (41 < clone_number
      → system_call_handler handle_all (pos clone_number) [] 0 ≡ ok (neg enosys, 0))
    × (clone_number < 41
        → (h : Handler) × (get_elem? sys_call_table clone_number ≡ some h)
          × (system_call_handler handle_all (pos clone_number) [] 0 ≡ handle_all h [] 0))
    × (clone_number ≡ 41 → system_call_handler handle_all (pos clone_number) [] 0 ≡ fault)
system_call_handler-numbers_example = system_call_handler-numbers handle_all clone_number [] 0

-- Semaphore 0 is owned by the running task, and tasks 4 and 5 wait for it.
abbrev zeos_semaphores : ZSems
zeos_semaphores = record {
  zeos_sems = λ i. record { used = pos 1; counter = pos 0; owner = pos 1 };
  scheduler = scheduler;
}

destroy-init_example :
    (s1 s2 s3 : ZSems) × (turn : Turn) × (zeos_sys_sem_destroy (pos 0) zeos_semaphores
      ≡ ok (pos 0, s1))
    × (rests 1 0 s1 ≡ ok s2)
    × (zeos_sys_sem_init 9 9 (pos 0) (pos 3) s2 ≡ ok (turn, s3))
    × (turn ≡ yields 0)
destroy-init_example =
    destroy-init 9 9 0 1 (pos 3) zeos_semaphores (omega arith) refl refl (omega arith) (omega arith)
