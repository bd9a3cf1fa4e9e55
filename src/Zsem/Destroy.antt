-- ===== src/Zsem/Destroy.antt =====
-- A semaphore of zeos_full/zeos_semaphores.c from its end to its next use.
use ze_os_filesystem.Base.{
  ℕ, zero, suc, ◌+◌, ◌-◌, ◌^◌, ◌≤◌, ◌<◌, ◌≡◌, refl, true, false, ltb, lt→ltb, le→ltb, if◌then◌else◌,
  List, [], ◌∷◌, length, some, update_self, Result, ok, ◌>>=◌, ap, sym, ◌∙◌, arith,
}
use ze_os_filesystem.Base.Int.{ℤ, pos, neg, eq_ℤ, ltb_ℤ, add_int, ◌+ℤ◌}
use ze_os_filesystem.Sem.Order.{add_int-neg}
use ze_os_filesystem.Sched.{ready_queue, update_process_state_rr}
use ze_os_filesystem.Zsem.{
  ZSem, ZSems, Turn, returned, yields, place, set_sem, pid, wake_all, zeos_sys_sem_init,
  zeos_sys_sem_init_rest, zeos_sys_sem_destroy, zeos_sys_sem_wait_rest,
}

wake_all-used :
    (i u : ℕ) (ps : List ℕ) (s : ZSems)
    → (s.zeos_sems i).used ≡ neg u
    → u + length ps < 2 ^ 31
    → (s' : ZSems) × (wake_all i ps s ≡ ok s') × ((s'.zeos_sems i).used ≡ neg (u + length ps))
unfolding wake_all
wake_all-used i u [] s used few =
    let z : u + 0 ≡ u = omega arith in (s, refl, used ∙ ap neg (sym z))
wake_all-used i u (p ∷ ps) s used few =
    let sem = record (s.zeos_sems i) { used = neg (u + 1) } in
    let s1 = record (set_sem i sem s) {
      scheduler = update_process_state_rr p (some ready_queue) s.scheduler;
    } in
    let (s', done, rest) =
      wake_all-used i (u + 1) ps s1 (ap ZSem.used (update_self s.zeos_sems i sem)) (omega arith) in
    let z : u + 1 + length ps ≡ u + suc (length ps) = omega arith in
    (s', rw (used, add_int-neg u (omega arith)) done, rest ∙ ap neg z)

-- `n` tasks that waited run again, one after the other.
unfoldable pub rests : ℕ → ℕ → ZSems → Result ZSems
rests zero i s = ok s
rests (suc n) i s = do (_, s') ← zeos_sys_sem_wait_rest i s; rests n i s'

add_int-one : (u : ℕ) → u < 2 ^ 31 → add_int (neg (suc u)) (pos 1) ≡ ok (neg u)
unfolding add_int ◌+ℤ◌
add_int-one zero h = refl
add_int-one (suc u) h = ground arith

rests-used :
    (m n i : ℕ) (s : ZSems)
    → m ≤ n
    → n < 2 ^ 31
    → (s.zeos_sems i).used ≡ neg n
    → (s' : ZSems) × (rests m i s ≡ ok s') × ((s'.zeos_sems i).used ≡ neg (n - m))
unfolding rests zeos_sys_sem_wait_rest
rests-used zero n i s le few used =
    let z : n - 0 ≡ n = omega arith in (s, refl, used ∙ ap neg (sym z))
rests-used (suc m) zero i s le few used = absurd (omega arith)
rests-used (suc m) (suc n) i s le few used =
    let sem = record (s.zeos_sems i) { used = neg n } in
    let (s', done, rest) =
      rests-used m n i (set_sem i sem s) (omega arith) (omega arith)
        (ap ZSem.used (update_self s.zeos_sems i sem)) in
    let z : n - m ≡ suc n - suc m = omega arith in
    let negative : ltb_ℤ (neg (suc n)) (pos 0) ≡ true = ground arith in
    (s', rw (used, negative, add_int-one n (omega arith)) done, rest ∙ ap neg z)

place-inside : (i : ℕ) → i < 10 → place (pos i) ≡ ok (some i)
unfolding place
place-inside i small = rw (le→ltb 10 i (omega arith), lt→ltb i 10 small) refl

destroy-used :
    (i : ℕ) (s : ZSems)
    → i < 10
    → ltb_ℤ (pos 0) (s.zeos_sems i).used ≡ true
    → eq_ℤ (s.zeos_sems i).owner (pid s) ≡ true
    → length (s.scheduler.blocked i) < 2 ^ 31
    → (s' : ZSems) × (zeos_sys_sem_destroy (pos i) s ≡ ok (pos 0, s'))
      × ((s'.zeos_sems i).used ≡ neg (length (s.scheduler.blocked i)))
unfolding zeos_sys_sem_destroy
destroy-used i s small used own few =
    let sem = record (s.zeos_sems i) { used = pos 0 } in
    let (s', done, rest) =
      wake_all-used i 0 (s.scheduler.blocked i) (set_sem i sem s)
        (ap ZSem.used (update_self s.zeos_sems i sem)) (omega arith) in
    let z : 0 + length (s.scheduler.blocked i) ≡ length (s.scheduler.blocked i) = omega arith in
    (s', rw (place-inside i small, used, own, done) refl, rest ∙ ap neg z)

not_positive : (k : ℕ) → ltb_ℤ (pos 0) (neg k) ≡ false
not_positive zero = refl
not_positive (suc k) = ground arith

-- The turn of `zeos_sys_sem_init` while `k` tasks have not yet run.
rest-turn :
    (ticks ticks' i k : ℕ) (value : ℤ) (s : ZSems)
    → (s.zeos_sems i).used ≡ neg k
    → (zeos_sys_sem_init_rest ticks ticks' i value s).0
      ≡ (if ltb 0 k then yields i else returned (pos 0))
unfolding zeos_sys_sem_init_rest
rest-turn ticks ticks' i zero value s used = rw used refl
rest-turn ticks ticks' i (suc k) value s used =
    let negative : ltb_ℤ (neg (suc k)) (pos 0) ≡ true = ground arith in
    let more : ltb 0 (suc k) ≡ true = lt→ltb 0 (suc k) (omega arith) in
    rw (used, negative, more) refl

ltb-minus : (m n : ℕ) → ltb 0 (n - m) ≡ ltb m n
ltb-minus m n = ground arith

-- Let semaphore `i` be in use, the running task its owner, and `n` tasks wait for it: its destruction
-- returns 0. Once `m` of these tasks have run again, a new `zeos_sys_sem_init` of it lets others run
-- while `m` is below `n`, and returns 0 when `m` is `n`.
pub destroy-init :
    (ticks ticks' i m : ℕ) (value : ℤ) (s : ZSems)
    → i < 10
    → ltb_ℤ (pos 0) (s.zeos_sems i).used ≡ true
    → eq_ℤ (s.zeos_sems i).owner (pid s) ≡ true
    → length (s.scheduler.blocked i) < 2 ^ 31
    → m ≤ length (s.scheduler.blocked i)
    → (s1 s2 s3 : ZSems) × (turn : Turn) × (zeos_sys_sem_destroy (pos i) s ≡ ok (pos 0, s1))
      × (rests m i s1 ≡ ok s2)
      × (zeos_sys_sem_init ticks ticks' (pos i) value s2 ≡ ok (turn, s3))
      × (turn ≡ (if ltb m (length (s.scheduler.blocked i)) then yields i else returned (pos 0)))
unfolding zeos_sys_sem_init zeos_sys_sem_init_rest
destroy-init ticks ticks' i m value s small used own few le =
    let n = length (s.scheduler.blocked i) in
    let (s1, done, u1) = destroy-used i s small used own few in
    let (s2, ran, u2) = rests-used m n i s1 le few u1 in
    let r = zeos_sys_sem_init_rest ticks ticks' i value s2 in
    let unused : ltb_ℤ (pos 0) (s2.zeos_sems i).used ≡ false = rw u2 (not_positive (n - m)) in
    let turn =
      rest-turn ticks ticks' i (n - m) value s2 u2
      ∙ ap (λ b. if b then yields i else returned (pos 0)) (ltb-minus m n) in
    (s1, s2, r.1, r.0, done, ran, rw (place-inside i small, unused) refl, turn)
