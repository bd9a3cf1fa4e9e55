-- ===== src/Sched/Policy.antt =====
-- The round-robin policy of zeos_full/sched.c.
use ze_os_filesystem.Base.{
  ℕ, ◌≡◌, ◌≢◌, refl, some, List, [], ◌∷◌, ◌++◌, arith, ok, ◌>>=◌, ◌∉◌, has-append, ==_ne, ==_self,
  ap, ◌∙◌,
}
use ze_os_filesystem.Base.Int.{as_int, pos, negsuc, add_int, add_int-negsuc}
use ze_os_filesystem.Sched.{
  Scheduler, ready_queue, remove, next_task, list_del, list_add_tail, update_process_state_rr,
  sched_next_rr, update_sched_data_rr, needs_sched_rr, scheduling,
}

pub remove-fresh : (t : ℕ) (xs : List ℕ) → t ∉ xs → remove t xs ≡ xs
unfolding remove
remove-fresh t [] h = refl
remove-fresh t (x ∷ xs) h = ground (arith, remove-fresh t xs)

pub remove-first : (t : ℕ) (xs : List ℕ) → t ∉ xs → remove t (t ∷ xs) ≡ xs
unfolding remove
remove-first t xs h = rw (==_self t) (remove-fresh t xs h)

next_task-first :
    (t : ℕ) (ts : List ℕ) (s : Scheduler) → s.readyqueue ≡ t ∷ ts → next_task s ≡ (t, list_del t s)
unfolding next_task
next_task-first t ts s queue = rw queue refl

update_process_state_rr-ready :
    (t : ℕ) (s : Scheduler)
    → t ≢ s.idle_task
    → update_process_state_rr t (some ready_queue) s ≡ list_add_tail t ready_queue (list_del t s)
unfolding update_process_state_rr
update_process_state_rr-ready t s h = rw (==_ne t s.idle_task h) refl

sched_next_rr-first :
    (ticks ticks' t : ℕ) (ts : List ℕ) (s : Scheduler)
    → s.readyqueue ≡ t ∷ ts
    → let s' = sched_next_rr ticks ticks' s in
      (s'.current ≡ t)
      × (s'.readyqueue ≡ remove t (t ∷ ts))
      × (s'.quantum_left ≡ as_int ((s.task t).quantum))
unfolding sched_next_rr
sched_next_rr-first ticks ticks' t ts s queue =
    rw (next_task-first t ts s queue) (refl, ap (remove t) queue, refl)

-- Given a running task with its last tick, not the idle one and in no queue, and a first task `t` of
-- the ready queue that is in it once: the clock makes `t` the running task with the whole of its
-- quantum, read as an `int`, and the ready queue is what stood behind `t`, then the old task.
pub scheduling-expired :
    (ticks ticks' t : ℕ) (ts : List ℕ) (s : Scheduler)
    → s.quantum_left ≡ pos 1
    → s.current ≢ s.idle_task
    → s.readyqueue ≡ t ∷ ts
    → s.current ∉ t ∷ ts
    → t ∉ ts
    → (s' : Scheduler) × (scheduling ticks ticks' s ≡ ok s')
      × (s'.current ≡ t)
      × (s'.readyqueue ≡ ts ++ s.current ∷ [])
      × (s'.quantum_left ≡ as_int ((s.task t).quantum))
unfolding scheduling update_sched_data_rr needs_sched_rr
scheduling-expired ticks ticks' t ts s last busy queue out once =
    let tick : add_int s.quantum_left (negsuc 0) ≡ ok (pos 0) =
      rw last (add_int-negsuc 1 0 (omega arith) (omega arith)) in
    let due = record s { quantum_left = pos 0 } in
    let waiting = list_add_tail s.current ready_queue (list_del s.current due) in
    let order : waiting.readyqueue ≡ t ∷ (ts ++ s.current ∷ []) =
      ap (λ q. q ++ s.current ∷ []) (remove-fresh s.current s.readyqueue (rw queue out) ∙ queue) in
    let other : t ∉ ts ++ s.current ∷ [] =
      rw (has-append t (s.current ∷ []) ts, once) (ground arith) in
    let (runs, rest, whole) =
      sched_next_rr-first ticks ticks' t (ts ++ s.current ∷ []) waiting order in
    (
      sched_next_rr ticks ticks' waiting,
      rw
          (
            tick,
            ◌>>=◌,
            ==_ne s.current s.idle_task busy,
            update_process_state_rr-ready s.current due busy,
          )
          refl,
      runs,
      rest ∙ remove-first t (ts ++ s.current ∷ []) other,
      whole,
    )
