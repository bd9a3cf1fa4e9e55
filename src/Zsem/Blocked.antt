-- ===== src/Zsem/Blocked.antt =====
-- `zeos_is_blocked_pid` of zeos_full/zeos_semaphores.c.
use ze_os_filesystem.Base.{
  ℕ, zero, suc, ◌+◌, ◌<◌, ◌≤◌, ◌≡◌, refl, ◌↔◌, true, ◌==◌, List, [], ◌∷◌, ◌∈◌, has, Bool-cases, inl,
  inr, subst, arith,
}
use ze_os_filesystem.Base.Int.{ℤ, pos, eq_ℤ}
use ze_os_filesystem.Sched.{Task}
use ze_os_filesystem.Zsem.{ZSems, has_pid, blocked_loop, zeos_is_blocked_pid}

has_pid-true :
    (pid : ℤ) (ts : List ℕ) (task : ℕ → Task) (t : ℕ)
    → t ∈ ts
    → eq_ℤ (task t).pid pid ≡ true
    → has_pid pid ts task ≡ true
unfolding has_pid
has_pid-true pid [] task t mem e = cc
has_pid-true pid (x ∷ ts) task t mem e = elim (Bool-cases (t == x)) [
  | inl same ↦ let eq : x ≡ t = ground arith in rw (eq, e) refl
  | inr other ↦
      let inside : has t ts ≡ true = ground arith in
      let rest = has_pid-true pid ts task t inside e in ground arith
]

has_pid-found :
    (pid : ℤ) (ts : List ℕ) (task : ℕ → Task)
    → has_pid pid ts task ≡ true
    → (t : ℕ) × (t ∈ ts) × (eq_ℤ (task t).pid pid ≡ true)
unfolding has_pid
has_pid-found pid [] task h = cc
has_pid-found pid (x ∷ ts) task h = elim (Bool-cases (eq_ℤ (task x).pid pid)) [
  | inl here ↦ (x, ground arith, here)
  | inr miss ↦ let (t, mem, e) = has_pid-found pid ts task (ground arith) in (t, ground arith, e)
]

module _ (pid : ℤ) (s : ZSems) where
  -- Task `t`, which has the number `pid`, waits in the queue of a semaphore from `i` to `i + n - 1`.
  abbrev pub WaitsFrom : ℕ → ℕ → Type 0
  WaitsFrom n i =
      (j t : ℕ) × (i ≤ j)
      × (j < i + n)
      × (t ∈ s.scheduler.blocked j)
      × (eq_ℤ (s.scheduler.task t).pid pid ≡ true)

  blocked_loop-true : (n i : ℕ) → WaitsFrom n i → blocked_loop pid n i s ≡ true
  unfolding blocked_loop
  blocked_loop-true zero i (j, t, from, below, mem, e) = absurd (omega arith)
  blocked_loop-true (suc n) i (j, t, from, below, mem, e) = elim (Bool-cases (i == j)) [
    | inl same ↦
        let eq : j ≡ i = ground arith in
        let here =
          has_pid-true pid (s.scheduler.blocked i) s.scheduler.task t
            (subst (λ k. t ∈ s.scheduler.blocked k) eq mem) e in
        rw here refl
    | inr other ↦
        let rest = blocked_loop-true n (i + 1) (j, t, ground arith, omega arith, mem, e) in
        ground arith
  ]

  blocked_loop-found : (n i : ℕ) → blocked_loop pid n i s ≡ true → WaitsFrom n i
  unfolding blocked_loop
  blocked_loop-found zero i h = cc
  blocked_loop-found (suc n) i h =
      elim (Bool-cases (has_pid pid (s.scheduler.blocked i) s.scheduler.task)) [
        | inl here ↦
            let (t, mem, e) = has_pid-found pid (s.scheduler.blocked i) s.scheduler.task here in
            (i, t, omega arith, omega arith, mem, e)
        | inr miss ↦
            let (j, t, from, below, mem, e) = blocked_loop-found n (i + 1) (ground arith) in
            (j, t, omega arith, omega arith, mem, e)
      ]

  -- `zeos_is_blocked_pid` answers 1 exactly when a task with this number is in the queue of one of the
  -- ten semaphores, and 0 in every other case.
  pub zeos_is_blocked_pid_iff :
      ((zeos_is_blocked_pid pid s ≡ pos 1) ↔ WaitsFrom 10 0)
      × ((zeos_is_blocked_pid pid s ≡ pos 0) ↔ (¬ WaitsFrom 10 0))
  unfolding zeos_is_blocked_pid
  zeos_is_blocked_pid_iff = elim (Bool-cases (blocked_loop pid 10 0 s)) [
    | inl found ↦
        let waits = blocked_loop-found 10 0 found in
        ((λ _. waits, λ _. rw found refl), (λ h. cc, λ none_waits. absurd (none_waits waits)))
    | inr quiet ↦
        let none_waits : ¬ WaitsFrom 10 0 = λ w. let found = blocked_loop-true 10 0 w in cc in
        ((λ h. cc, λ w. absurd (none_waits w)), (λ _. none_waits, λ _. rw quiet refl))
  ]
