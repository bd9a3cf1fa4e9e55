-- ===== src/Libc.antt =====
-- The system calls of zeos_full/libc.c, through the table of zeos_full/sys_call_table.S and the handler
-- of zeos_full/entry.S. What the kernel does in a call is a parameter.
pub mod Reach
pub mod Calls
use ze_os_filesystem.Base.{
  ℕ, ◌+◌, List, [], ◌∷◌, ◌++◌, replicate, get_elem?, Bool, true, false, ◌||◌, ltb, if◌then◌else◌,
  Option, none, some, Result, ok, fault, ◌>>=◌,
}
use ze_os_filesystem.Base.Int.{ℤ, pos, negsuc, neg, ltb_ℤ}

-- The routines that the table names.
pub data Handler : Type 0 where
  sys_ni_syscall sys_exit sys_fork sys_getstats sys_write sys_read sys_open sys_close : Handler
  sys_unlink sys_lseek sys_gettime sys_clone sys_getpid : Handler
  sys_sem_init sys_sem_wait sys_sem_signal sys_sem_destroy : Handler

unfoldable pub sys_call_table : List Handler
sys_call_table =
    sys_ni_syscall
    ∷ sys_exit
    ∷ sys_fork
    ∷ sys_getstats
    ∷ sys_write
    ∷ sys_read
    ∷ sys_open
    ∷ sys_close
    ∷ sys_unlink
    ∷ sys_lseek
    ∷ sys_gettime
    ∷ (replicate 8 sys_ni_syscall
        ++ (sys_clone
            ∷ sys_getpid
            ∷ sys_sem_init
            ∷ sys_sem_wait
            ∷ sys_sem_signal
            ∷ sys_sem_destroy
            ∷ replicate 16 sys_ni_syscall))

abbrev pub max_syscall : ℕ
max_syscall = 41

abbrev pub enosys : ℕ
enosys = 38

-- A process: `errno`, and the kernel that it calls.
pub record User (K : Type 0) : Type 0 where
  pub errno : ℤ
  pub kernel : K

unfoldable pub negate : ℤ → ℤ
negate (pos n) = neg n
negate (negsuc n) = pos (n + 1)

-- What each call does with the result of the kernel.
unfoldable pub answer : {K : Type 0} → ℤ × K → ℤ → ℤ × User K
answer (ret, k) errno =
    if ltb_ℤ ret (pos 0)
    then (negsuc 0, record { errno = negate ret; kernel = k })
    else (ret, record { errno = errno; kernel = k })

module _ {K : Type 0} (handle : Handler → List ℤ → K → Result (ℤ × K)) where
  -- The handler of `int $0x80`, with the number in `eax`. A call by an address outside the table is a
  -- fault.
  unfoldable pub system_call_handler : ℤ → List ℤ → K → Result (ℤ × K)
  system_call_handler (negsuc n) args k = ok (neg enosys, k)
  system_call_handler (pos eax) args k =
      if ltb max_syscall eax then ok (neg enosys, k) else elim (get_elem? sys_call_table eax) [
        | none ↦ fault
        | some handler ↦ handle handler args k
      ]

  unfoldable pub call : ℕ → List ℤ → User K → Result (ℤ × User K)
  call number args u = do r ← system_call_handler (pos number) args u.kernel; ok (answer r u.errno)

  unfoldable pub lseek : ℤ → ℤ → ℤ → User K → Result (ℤ × User K)
  lseek fd offset whence = call 9 (fd ∷ offset ∷ whence ∷ [])

  unfoldable pub write : ℤ → ℤ → ℤ → User K → Result (ℤ × User K)
  write fd buffer nbytes = call 4 (fd ∷ buffer ∷ nbytes ∷ [])

  unfoldable pub read : ℤ → ℤ → ℤ → User K → Result (ℤ × User K)
  read fd buffer nbytes = call 5 (fd ∷ buffer ∷ nbytes ∷ [])

  unfoldable pub open_call : ℤ → ℤ → User K → Result (ℤ × User K)
  open_call path mode = call 6 (path ∷ mode ∷ [])

  unfoldable pub close : ℤ → User K → Result (ℤ × User K)
  close fd = call 7 (fd ∷ [])

  unfoldable pub unlink : ℤ → User K → Result (ℤ × User K)
  unlink path = call 8 (path ∷ [])

  unfoldable pub gettime : User K → Result (ℤ × User K)
  gettime = call 10 []

  -- `exit` has no result, and leaves `errno` alone.
  unfoldable pub exit : User K → Result (User K)
  exit u = do (_, k) ← system_call_handler (pos 1) [] u.kernel; ok (record u { kernel = k })

  unfoldable pub getpid : User K → Result (ℤ × User K)
  getpid = call 20 []

  unfoldable pub fork : User K → Result (ℤ × User K)
  fork = call 2 []

  unfoldable pub get_stats : ℤ → ℤ → User K → Result (ℤ × User K)
  get_stats pid s = call 3 (pid ∷ s ∷ [])

  unfoldable pub clone : ℤ → ℤ → User K → Result (ℤ × User K)
  clone function stack = call 19 (function ∷ stack ∷ [])

  unfoldable pub sem_init : ℤ → ℤ → User K → Result (ℤ × User K)
  sem_init n_sem value = call 21 (n_sem ∷ value ∷ [])

  unfoldable pub sem_wait : ℤ → User K → Result (ℤ × User K)
  sem_wait n_sem = call 22 (n_sem ∷ [])

  unfoldable pub sem_signal : ℤ → User K → Result (ℤ × User K)
  sem_signal n_sem = call 23 (n_sem ∷ [])

  unfoldable pub sem_destroy : ℤ → User K → Result (ℤ × User K)
  sem_destroy n_sem = call 24 (n_sem ∷ [])
