-- ===== src/Sched/Switch.antt =====
-- A switch of zeos_full/sched.c leaves every task in one place.
use ze_os_filesystem.Base.{
  ℕ, ◌≡◌, ◌≢◌, refl, false, ◌==◌, ==_iff, ==_ne, update, update_other, Option, none, some, List, [],
  ◌∷◌, Bool-cases, List-cases, inl, inr, ap, sym, ◌∙◌, subst, arith, ok, ok-injective, >>=-eq-ok,
}
use ze_os_filesystem.Base.Int.{negsuc, add_int}
use ze_os_filesystem.Sched.{
  Scheduler, Queue, free_queue, ready_queue, blocked_queue, list_del, update_process_state_rr,
  next_task, sched_next_rr, update_sched_data_rr, needs_sched_rr, scheduling,
}
use ze_os_filesystem.Sched.Places.{
  count, tasks, runs, IsOrdinary, AreQueued, Runs, Placed, moved-Placed, count-list_del,
  moved-AreQueued, IsOrdinary-moved,
}

-- No task but the idle one runs.
abbrev NoneRuns : (ℕ → Option Queue) → Scheduler → Type 0
NoneRuns place s = (t : ℕ) → IsOrdinary t s → runs (place t) ≡ false

deleted-AreQueued :
    (place : ℕ → Option Queue) (t : ℕ) (s : Scheduler)
    → AreQueued place s
    → AreQueued (update place t none) (list_del t s)
deleted-AreQueued place t s queued u ordinary q =
    count-list_del u t q s ∙ (elim (Bool-cases (u == t)) [
      | inl same ↦ rw same refl
      | inr other ↦ rw other (queued u ordinary q)
    ])

deleted-Runs :
    (place : ℕ → Option Queue) (t u : ℕ)
    → runs (place u) ≡ false
    → runs (update place t none u) ≡ (u == t)
deleted-Runs place t u quiet = elim (Bool-cases (u == t)) [
  | inl same ↦ rw same refl
  | inr other ↦ rw other quiet
]

-- The same places, in a scheduler that differs in the tasks' contents and the quantum only.
abbrev pub Alike : Scheduler → Scheduler → Type 0
Alike s s' =
    (s'.freequeue ≡ s.freequeue)
    × (s'.readyqueue ≡ s.readyqueue)
    × (s'.blocked ≡ s.blocked)
    × (s'.idle_task ≡ s.idle_task)

tasks-Alike : (q : Queue) (s s' : Scheduler) → Alike s s' → tasks q s' ≡ tasks q s
tasks-Alike free_queue s s' (f, r, b, i) = f
tasks-Alike ready_queue s s' (f, r, b, i) = r
tasks-Alike (blocked_queue k) s s' (f, r, b, i) = ap (λ (g : ℕ → List ℕ). g k) b

AreQueued-Alike :
    (place : ℕ → Option Queue) (s s' : Scheduler)
    → Alike s s'
    → AreQueued place s
    → AreQueued place s'
AreQueued-Alike place s s' alike queued u (small, busy) q =
    ap (count u) (tasks-Alike q s s' alike) ∙ queued u (small, λ e. busy (e ∙ sym (alike.3))) q

-- The places stand while only tasks' contents and counters change.
pub Alike-Placed : (s s' : Scheduler) → Alike s s' → s'.current ≡ s.current → Placed s → Placed s'
Alike-Placed s s' alike same placed = record {
  place = placed.place;
  queued = AreQueued-Alike placed.place s s' alike placed.queued;
  running = λ u ordinary.
      placed.running u (ordinary.0, λ e. ordinary.1 (e ∙ sym (alike.3)))
      ∙ ap (λ c. u == c) (sym same);
}

sched_next_rr-empty :
    (ticks ticks' : ℕ) (s : Scheduler)
    → s.readyqueue ≡ []
    → Alike s (sched_next_rr ticks ticks' s)
      × ((sched_next_rr ticks ticks' s).current ≡ s.idle_task)
unfolding sched_next_rr next_task
sched_next_rr-empty ticks ticks' s none_ready = rw none_ready ((refl, refl, refl, refl), refl)

sched_next_rr-first :
    (ticks ticks' t : ℕ) (ts : List ℕ) (s : Scheduler)
    → s.readyqueue ≡ t ∷ ts
    → Alike (list_del t s) (sched_next_rr ticks ticks' s)
      × ((sched_next_rr ticks ticks' s).current ≡ t)
unfolding sched_next_rr next_task
sched_next_rr-first ticks ticks' t ts s ready = rw ready ((refl, refl, refl, refl), refl)

pub sched_next_rr-Placed :
    (ticks ticks' : ℕ) (place : ℕ → Option Queue) (s : Scheduler)
    → AreQueued place s
    → NoneRuns place s
    → Placed (sched_next_rr ticks ticks' s)
sched_next_rr-Placed ticks ticks' place s queued quiet = elim (List-cases s.readyqueue) [
  | inl none_ready ↦
      let (alike, idle) = sched_next_rr-empty ticks ticks' s none_ready in
      record {
        place = place;
        queued = AreQueued-Alike place s _ alike queued;
        running = λ u (small, busy).
            quiet u (small, λ e. busy (e ∙ sym (alike.3)))
            ∙ sym (==_ne u _ (λ e. busy (e ∙ idle ∙ sym (alike.3))));
      }
  | inr (t, ts, ready) ↦
      let (alike, now) = sched_next_rr-first ticks ticks' t ts s ready in
      record {
        place = update place t none;
        queued =
            AreQueued-Alike (update place t none) (list_del t s) _ alike
              (deleted-AreQueued place t s queued);
        running = λ u (small, busy).
            deleted-Runs place t u (quiet u (small, λ e. busy (e ∙ sym (alike.3))))
            ∙ ap (λ c. u == c) (sym now);
      }
]

not_current :
    (place : ℕ → Option Queue) (u : ℕ) (s : Scheduler)
    → Runs place s
    → IsOrdinary u s
    → u ≢ s.current
    → runs (place u) ≡ false
not_current place u s running ordinary away = running u ordinary ∙ ==_ne u s.current away

-- The running task goes to a queue, and the next one runs.
pub yield-Placed :
    (ticks ticks' : ℕ) (to : Queue) (s : Scheduler)
    → Placed s
    → Placed (sched_next_rr ticks ticks' (update_process_state_rr s.current (some to) s))
unfolding update_process_state_rr
yield-Placed ticks ticks' to s placed = elim (Bool-cases (s.current == s.idle_task)) [
  | inl idle ↦
      let e : s.current ≡ s.idle_task = (==_iff s.current s.idle_task).0 idle in
      rw idle (
        sched_next_rr-Placed ticks ticks' (update placed.place s.current none)
          (list_del s.current s) (deleted-AreQueued placed.place s.current s placed.queued)
          (λ u ordinary.
            let away : u ≢ s.current = λ h. ordinary.1 (h ∙ e) in
            ap runs (update_other placed.place s.current none u away)
            ∙ not_current placed.place u s placed.running ordinary away))
  | inr busy ↦ rw busy (
      sched_next_rr-Placed ticks ticks' (update placed.place s.current (some to)) _
        (moved-AreQueued placed.place s.current to s placed.queued)
        (λ u ordinary.
          let usual = IsOrdinary-moved u s.current to s ordinary in
          elim (Bool-cases (u == s.current)) [
            | inl same ↦ rw same refl
            | inr other ↦
                let away : u ≢ s.current = λ h. let k = (==_iff u s.current).1 h in cc in
                rw other (not_current placed.place u s placed.running usual away)
          ]))
]

needs_sched_rr-Alike :
    (s : Scheduler) → Alike s (needs_sched_rr s).1 × ((needs_sched_rr s).1.current ≡ s.current)
unfolding needs_sched_rr
needs_sched_rr-Alike s = ground arith

update_sched_data_rr-Placed :
    (s s1 : Scheduler) → Placed s → update_sched_data_rr s ≡ ok s1 → Placed s1
unfolding update_sched_data_rr
update_sched_data_rr-Placed s s1 placed h =
    let (left, e, rest) = >>=-eq-ok (add_int s.quantum_left (negsuc 0)) _ h in
    subst Placed (ok-injective rest)
      (Alike-Placed s (record s { quantum_left = left }) (refl, refl, refl, refl) refl placed)

-- The clock's call of the policy leaves every task in one place.
pub scheduling-Placed :
    (ticks ticks' : ℕ) (s s' : Scheduler) → Placed s → scheduling ticks ticks' s ≡ ok s' → Placed s'
unfolding scheduling
scheduling-Placed ticks ticks' s s' placed h =
    let (s1, e, rest) = >>=-eq-ok (update_sched_data_rr s) _ h in
    let placed1 = update_sched_data_rr-Placed s s1 placed e in
    let s2 = (needs_sched_rr s1).1 in
    let (alike, same) = needs_sched_rr-Alike s1 in
    let placed2 = Alike-Placed s1 s2 alike same placed1 in
    elim (Bool-cases (needs_sched_rr s1).0) [
      | inl needed ↦
          subst Placed (ok-injective (rw needed at rest))
            (yield-Placed ticks ticks' ready_queue s2 placed2)
      | inr idle ↦ subst Placed (ok-injective (rw idle at rest)) placed2
    ]

-- A task that does not run becomes ready.
pub wake-Placed :
    (t : ℕ) (s : Scheduler)
    → Placed s
    → (IsOrdinary t s → t ≢ s.current)
    → Placed (update_process_state_rr t (some ready_queue) s)
unfolding update_process_state_rr
wake-Placed t s placed still = elim (Bool-cases (t == s.idle_task)) [
  | inr busy ↦ rw busy (moved-Placed t ready_queue s placed still)
  | inl idle ↦
      let e : t ≡ s.idle_task = (==_iff t s.idle_task).0 idle in
      rw idle (record {
        place = placed.place;
        queued = λ u ordinary q.
            count-list_del u t q s
            ∙ (rw (==_ne u t (λ h. ordinary.1 (h ∙ e))) (placed.queued u ordinary q));
        running = placed.running;
      })
]
