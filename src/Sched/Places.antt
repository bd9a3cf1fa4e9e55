-- ===== src/Sched/Places.antt =====
-- Every task of zeos_full/sched.c but the idle one is in one place: it runs, or it stands once in one
-- queue.
use ze_os_filesystem.Base.{
  ℕ, ◌+◌, ◌<◌, ◌≡◌, ◌≢◌, refl, Bool, true, false, ◌==◌, ==_iff, ==_ne, if◌then◌else◌, update,
  Option, none, some, List, [], ◌∷◌, ◌++◌, ◌∈◌, Bool-cases, Option-cases, inl, inr, ap, sym, ◌∙◌,
  subst, arith,
}
use ze_os_filesystem.Sched.{
  Scheduler, Queue, free_queue, ready_queue, blocked_queue, nr_tasks, remove, list_del,
  list_add_tail,
}

unfoldable pub count : ℕ → List ℕ → ℕ
count t [] = 0
count t (x ∷ xs) = (if t == x then 1 else 0) + count t xs

count-append :
    (t x : ℕ) (l : List ℕ) → count t (l ++ x ∷ []) ≡ count t l + (if t == x then 1 else 0)
unfolding count
count-append t x [] = omega arith
count-append t x (y ∷ l) = let rest = count-append t x l in omega arith

count-remove : (t x : ℕ) (l : List ℕ) → count t (remove x l) ≡ (if t == x then 0 else count t l)
unfolding count remove
count-remove t x [] = ground arith
count-remove t x (y ∷ l) = let rest = count-remove t x l in ground arith

pub count-has : (t : ℕ) (l : List ℕ) → t ∈ l → 0 < count t l
unfolding count
count-has t [] h = cc
count-has t (x ∷ l) h = elim (Bool-cases (t == x)) [
  | inl here ↦ rw here (omega arith)
  | inr away ↦ let rest = count-has t l (ground arith) in omega arith
]

-- The tasks of a queue.
abbrev pub tasks : Queue → Scheduler → List ℕ
tasks free_queue s = s.freequeue
tasks ready_queue s = s.readyqueue
tasks (blocked_queue i) s = s.blocked i

abbrev pub same_queue : Queue → Queue → Bool
same_queue free_queue free_queue = true
same_queue ready_queue ready_queue = true
same_queue (blocked_queue i) (blocked_queue j) = i == j
same_queue _ _ = false

-- A task's place: `none` is the processor.
abbrev pub is_at : Option Queue → Queue → Bool
is_at none q = false
is_at (some p) q = same_queue q p

abbrev pub runs : Option Queue → Bool
runs none = true
runs (some p) = false

-- A task of the ten, but the idle one.
abbrev pub IsOrdinary : ℕ → Scheduler → Type 0
IsOrdinary t s = (t < nr_tasks) × (t ≢ s.idle_task)

-- Each is in the queue that its place says, once, and in no other.
abbrev pub AreQueued : (ℕ → Option Queue) → Scheduler → Type 0
AreQueued place s =
    (t : ℕ)
    → IsOrdinary t s
    → (q : Queue) → count t (tasks q s) ≡ (if is_at (place t) q then 1 else 0)

abbrev pub Runs : (ℕ → Option Queue) → Scheduler → Type 0
Runs place s = (t : ℕ) → IsOrdinary t s → runs (place t) ≡ (t == s.current)

pub record Placed (s : Scheduler) : Type 0 where
  pub place : ℕ → Option Queue
  pub queued : AreQueued place s
  pub running : Runs place s

tasks-list_del : (t : ℕ) (q : Queue) (s : Scheduler) → tasks q (list_del t s) ≡ remove t (tasks q s)
tasks-list_del t free_queue s = refl
tasks-list_del t ready_queue s = refl
tasks-list_del t (blocked_queue i) s = refl

tasks-list_add_tail :
    (t : ℕ) (to q : Queue) (s : Scheduler)
    → tasks q (list_add_tail t to s) ≡ (if same_queue q to then tasks q s ++ t ∷ [] else tasks q s)
tasks-list_add_tail t free_queue free_queue s = refl
tasks-list_add_tail t free_queue ready_queue s = refl
tasks-list_add_tail t free_queue (blocked_queue i) s = refl
tasks-list_add_tail t ready_queue free_queue s = refl
tasks-list_add_tail t ready_queue ready_queue s = refl
tasks-list_add_tail t ready_queue (blocked_queue i) s = refl
tasks-list_add_tail t (blocked_queue j) free_queue s = refl
tasks-list_add_tail t (blocked_queue j) ready_queue s = refl
tasks-list_add_tail t (blocked_queue j) (blocked_queue i) s = elim (Bool-cases (i == j)) [
  | inl same ↦
      let e : i ≡ j = (==_iff i j).0 same in rw same (ap (λ k. s.blocked k ++ t ∷ []) (sym e))
  | inr other ↦ rw other refl
]

-- A task that is taken out of its queue, and one that goes to another.
pub count-list_del :
    (u t : ℕ) (q : Queue) (s : Scheduler)
    → count u (tasks q (list_del t s)) ≡ (if u == t then 0 else count u (tasks q s))
count-list_del u t q s = ap (count u) (tasks-list_del t q s) ∙ count-remove u t (tasks q s)

pub count-moved :
    (u t : ℕ) (to q : Queue) (s : Scheduler)
    → count u (tasks q (list_add_tail t to (list_del t s)))
      ≡ (if u == t then (if same_queue q to then 1 else 0) else count u (tasks q s))
count-moved u t to q s =
    let e = ap (count u) (tasks-list_add_tail t to q (list_del t s)) in
    let d = count-list_del u t q s in
    let a = count-append u t (tasks q (list_del t s)) in
    elim (Bool-cases (same_queue q to)) [
      | inl here ↦
          let moved =
            e
            ∙ ap
                (λ b.
                  count u (if b then tasks q (list_del t s) ++ t ∷ [] else tasks q (list_del t s)))
                here in
          ground (arith, moved, d, a)
      | inr away ↦
          let moved =
            e
            ∙ ap
                (λ b.
                  count u (if b then tasks q (list_del t s) ++ t ∷ [] else tasks q (list_del t s)))
                away in
          ground (arith, moved, d)
    ]

pub idle-list_add_tail :
    (t : ℕ) (to : Queue) (s : Scheduler) → (list_add_tail t to s).idle_task ≡ s.idle_task
idle-list_add_tail t free_queue s = refl
idle-list_add_tail t ready_queue s = refl
idle-list_add_tail t (blocked_queue i) s = refl

pub current-list_add_tail :
    (t : ℕ) (to : Queue) (s : Scheduler) → (list_add_tail t to s).current ≡ s.current
current-list_add_tail t free_queue s = refl
current-list_add_tail t ready_queue s = refl
current-list_add_tail t (blocked_queue i) s = refl

pub IsOrdinary-moved :
    (u t : ℕ) (to : Queue) (s : Scheduler)
    → IsOrdinary u (list_add_tail t to (list_del t s))
    → IsOrdinary u s
IsOrdinary-moved u t to s (small, busy) =
    (small, λ e. busy (e ∙ sym (idle-list_add_tail t to (list_del t s))))

pub moved-AreQueued :
    (place : ℕ → Option Queue) (t : ℕ) (to : Queue) (s : Scheduler)
    → AreQueued place s
    → AreQueued (update place t (some to)) (list_add_tail t to (list_del t s))
moved-AreQueued place t to s queued u ordinary q =
    count-moved u t to q s ∙ (elim (Bool-cases (u == t)) [
      | inl same ↦ rw same refl
      | inr other ↦ rw other (queued u (IsOrdinary-moved u t to s ordinary) q)
    ])

-- A task that does not run goes to the end of a queue.
pub moved-Placed :
    (t : ℕ) (to : Queue) (s : Scheduler)
    → Placed s
    → (IsOrdinary t s → t ≢ s.current)
    → Placed (list_add_tail t to (list_del t s))
moved-Placed t to s placed still = record {
  place = update placed.place t (some to);
  queued = moved-AreQueued placed.place t to s placed.queued;
  running = λ u ordinary.
      let usual = IsOrdinary-moved u t to s ordinary in
      rw (current-list_add_tail t to (list_del t s)) (elim (Bool-cases (u == t)) [
        | inl same ↦
            let e : u ≡ t = (==_iff u t).0 same in
            let away : t ≢ s.current = still (subst (λ k. IsOrdinary k s) e usual) in
            rw same (sym (==_ne u s.current (λ h. away (sym e ∙ h))))
        | inr other ↦ rw other (placed.running u usual)
      ]);
}

pub waiting-still :
    (t : ℕ) (q : Queue) (s : Scheduler) → Placed s → t ∈ tasks q s → IsOrdinary t s → t ≢ s.current
waiting-still t q s placed waits ordinary now =
    let more = count-has t (tasks q s) waits in
    let once = placed.queued t ordinary q in
    let away = placed.running t ordinary ∙ (==_iff t s.current).1 now in
    elim (Option-cases (placed.place t)) [
      | inl none_at ↦ let absent = rw none_at at once in omega (arith, more, absent)
      | inr (p, e) ↦ let busy = rw e at away in cc
    ]
