-- ===== src/Libc/Reach.antt =====
-- Which routine of the kernel each call of zeos_full/libc.c reaches, and what comes back.
use ze_os_filesystem.Base.{
  ℕ, suc, ◌<◌, ◌≡◌, refl, List, [], ◌∷◌, get_elem?, get_elem?-lt, lt→ltb, le→ltb, none, some,
  Result, ok, fault, ◌>>=◌, ap, arith,
}
use ze_os_filesystem.Base.Int.{ℤ, pos, negsuc, neg}
use ze_os_filesystem.Libc.{
  Handler, User, negate, answer, sys_call_table, system_call_handler, call, lseek, write, read,
  open_call, close, unlink, gettime, getpid, fork, get_stats, clone, sem_init, sem_wait, sem_signal,
  sem_destroy, enosys,
}

table-covers : (eax : ℕ) → eax < 41 → (h : Handler) × (get_elem? sys_call_table eax ≡ some h)
unfolding sys_call_table
table-covers eax small = get_elem?-lt sys_call_table eax small

table-ends : get_elem? sys_call_table 41 ≡ none
unfolding sys_call_table
table-ends = refl

pub answer-pos :
    {K : Type 0} (n : ℕ) (k : K) (errno : ℤ)
    → answer (pos n, k) errno ≡ (pos n, record { errno = errno; kernel = k })
unfolding answer
answer-pos n k errno = ground arith

pub answer-neg :
    {K : Type 0} (e : ℕ) (k : K) (errno : ℤ)
    → answer (neg (suc e), k) errno ≡ (negsuc 0, record { errno = pos (suc e); kernel = k })
unfolding answer negate
answer-neg e k errno = ground arith

module _ {K : Type 0} (handle : Handler → List ℤ → K → Result (ℤ × K)) where
  -- The call `f` runs `handler` with these arguments, and makes its result the process's.
  abbrev pub Reaches : (User K → Result (ℤ × User K)) → Handler → List ℤ → Type 0
  Reaches f handler args =
      (u : User K) → f u ≡ (handle handler args u.kernel >>= λ r. ok (answer r u.errno))

  -- Each of the calls on files reaches the routine of the kernel that has its name, with its arguments
  -- in order.
  pub file_calls_reach :
      (a b c : ℤ)
      → Reaches (lseek handle a b c) Handler.sys_lseek (a ∷ b ∷ c ∷ [])
        × Reaches (write handle a b c) Handler.sys_write (a ∷ b ∷ c ∷ [])
        × Reaches (read handle a b c) Handler.sys_read (a ∷ b ∷ c ∷ [])
        × Reaches (open_call handle a b) Handler.sys_open (a ∷ b ∷ [])
        × Reaches (close handle a) Handler.sys_close (a ∷ [])
        × Reaches (unlink handle a) Handler.sys_unlink (a ∷ [])
  unfolding lseek write read open_call close unlink call system_call_handler sys_call_table
  file_calls_reach a b c = (λ u. refl, λ u. refl, λ u. refl, λ u. refl, λ u. refl, λ u. refl)

  -- Each of the other calls that have a result reaches the routine of the kernel that has its name, with
  -- its arguments in order.
  pub process_calls_reach :
      (a b : ℤ)
      → Reaches (gettime handle) Handler.sys_gettime []
        × Reaches (getpid handle) Handler.sys_getpid []
        × Reaches (fork handle) Handler.sys_fork []
        × Reaches (get_stats handle a b) Handler.sys_getstats (a ∷ b ∷ [])
        × Reaches (clone handle a b) Handler.sys_clone (a ∷ b ∷ [])
        × Reaches (sem_init handle a b) Handler.sys_sem_init (a ∷ b ∷ [])
        × Reaches (sem_wait handle a) Handler.sys_sem_wait (a ∷ [])
        × Reaches (sem_signal handle a) Handler.sys_sem_signal (a ∷ [])
        × Reaches (sem_destroy handle a) Handler.sys_sem_destroy (a ∷ [])
  unfolding gettime getpid fork get_stats clone sem_init sem_wait sem_signal sem_destroy call
      system_call_handler sys_call_table
  process_calls_reach a b = (
    λ u. refl,
    λ u. refl,
    λ u. refl,
    λ u. refl,
    λ u. refl,
    λ u. refl,
    λ u. refl,
    λ u. refl,
    λ u. refl,
  )

  -- The handler of `int $0x80` refuses a number above 41 with `-ENOSYS`, and leaves the kernel as it
  -- is. For a number below 41 it runs the routine of the table. The number 41 passes its test though
  -- the table ends at 40.
  pub system_call_handler-numbers :
      (eax : ℕ) (args : List ℤ) (k : K)
      → (41 < eax → system_call_handler handle (pos eax) args k ≡ ok (neg enosys, k))
        × (eax < 41
            → (h : Handler) × (get_elem? sys_call_table eax ≡ some h)
              × (system_call_handler handle (pos eax) args k ≡ handle h args k))
        × (eax ≡ 41 → system_call_handler handle (pos eax) args k ≡ fault)
  unfolding system_call_handler
  system_call_handler-numbers eax args k = (
    λ large. rw (lt→ltb 41 eax large) refl,
    λ small.
        let (h, e) = table-covers eax small in (h, e, rw (le→ltb 41 eax (omega arith), e) refl),
    λ last. rw (last, table-ends, system_call_handler) refl,
  )

  -- The process sees a result of the kernel that is not negative as it is, with `errno` unchanged, and
  -- an error as -1, with the number of the error in `errno`.
  pub call-errno :
      (eax : ℕ) (args : List ℤ) (h : Handler) (u : User K) (k : K)
      → get_elem? sys_call_table eax ≡ some h
      → eax < 41
      → ((n : ℕ)
          → handle h args u.kernel ≡ ok (pos n, k)
          → call handle eax args u ≡ ok (pos n, record u { kernel = k }))
        × ((e : ℕ)
            → handle h args u.kernel ≡ ok (neg (suc e), k)
            → call handle eax args u ≡ ok (negsuc 0, record { errno = pos (suc e); kernel = k }))
  unfolding call system_call_handler
  call-errno eax args h u k entry small = (
    λ n done.
        let known = le→ltb 41 eax (omega arith) in
        rw (known, entry, done, system_call_handler) (ap ok (answer-pos n k u.errno)),
    λ e done.
        let known = le→ltb 41 eax (omega arith) in
        rw (known, entry, done, system_call_handler) (ap ok (answer-neg e k u.errno)),
  )
