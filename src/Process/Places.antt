-- ===== src/Process/Places.antt =====
-- The calls on processes of zeos_full/sys.c leave every task in one place.
use ze_os_filesystem.Base.{
  ℕ, ◌≡◌, ◌≢◌, refl, ==_self, Option, none, some, List, [], ◌∷◌, ◌++◌, ◌∈◌, Option-cases, inl, inr,
  ap, subst, Result, ok, ok-injective,
}
use ze_os_filesystem.Base.Int.{ℤ}
use ze_os_filesystem.Utils.{num_pag_data}
use ze_os_filesystem.Mm.{PhysMem}
use ze_os_filesystem.Sched.{
  Scheduler, free_queue, ready_queue, list_del, list_add_tail, allocate_dir, free_dir, nr_tasks,
}
use ze_os_filesystem.Sched.Places.{Placed, IsOrdinary, moved-Placed, waiting-still}
use ze_os_filesystem.Sched.Switch.{Alike, Alike-Placed}
use ze_os_filesystem.Process.{
  Processes, scheduler, set_scheduler, take_frames, copy_task, start_child, with_dir, give_dir,
  inherit, fill_child, fork_task, fork_first, sys_fork,
}

abbrev pub SamePlaces : Scheduler → Scheduler → Type 0
SamePlaces s s' = Alike s s' × (s'.current ≡ s.current)

pub second {ℓ κ} :
    {A : Type ℓ} {B : Type κ} {a a' : A} {b b' : B}
    → ◌≡◌ {A = Result (A × B)} (ok (a, b)) (ok (a', b'))
    → b ≡ b'
second e = ap (λ p. p.1) (ok-injective e)

pub start_child-Placed :
    (ret ticks ticks' c : ℕ) (s0 : Scheduler) (s : Processes)
    → SamePlaces (list_del c s0) (scheduler s)
    → Placed s0
    → (IsOrdinary c s0 → c ≢ s0.current)
    → Placed (scheduler (start_child ret ticks ticks' c s).1)
unfolding start_child
start_child-Placed ret ticks ticks' c s0 s ((f, r, b, i), now) placed still =
    Alike-Placed (list_add_tail c ready_queue (list_del c s0)) _
      (f, ap (λ (l : List ℕ). l ++ c ∷ []) r, b, i) now (moved-Placed c ready_queue s0 placed still)

allocate_dir-SamePlaces : (s : Scheduler) → SamePlaces s (allocate_dir s).1
unfolding allocate_dir
allocate_dir-SamePlaces s = elim (Option-cases (free_dir s.dir_usage nr_tasks 0)) [
  | inl full ↦ rw (full, allocate_dir) ((refl, refl, refl, refl), refl)
  | inr (i, e) ↦ rw (e, allocate_dir) ((refl, refl, refl, refl), refl)
]

with_dir-SamePlaces :
    (c : ℕ) (d : Option ℕ × Scheduler) (s : Processes)
    → SamePlaces (scheduler s) d.1
    → SamePlaces (scheduler s) (scheduler (with_dir c d s))
with_dir-SamePlaces c (none, sched) s same = ((refl, refl, refl, refl), refl)
with_dir-SamePlaces c (some i, sched) s same = same

pub give_dir-SamePlaces :
    (c : ℕ) (s : Processes) → SamePlaces (scheduler s) (scheduler (give_dir c s))
unfolding give_dir
give_dir-SamePlaces c s =
    with_dir-SamePlaces c (allocate_dir (scheduler s)) s (allocate_dir-SamePlaces (scheduler s))

-- The first free task does not run.
pub first_free-still :
    (c : ℕ) (rest : List ℕ) (s : Scheduler)
    → Placed s
    → s.freequeue ≡ c ∷ rest
    → IsOrdinary c s
    → c ≢ s.current
first_free-still c rest s placed free =
    let first : c ∈ s.freequeue = rw (free, ==_self c) refl in
    waiting-still c free_queue s placed first

fill_child-Placed :
    (ret ticks ticks' c : ℕ) (v : List ℕ) (child father : Option ℕ) (s0 : Scheduler) (s : Processes)
    {r : ℤ} {s' : Processes}
    → SamePlaces (list_del c s0) (scheduler s)
    → Placed s0
    → (IsOrdinary c s0 → c ≢ s0.current)
    → fill_child ret ticks ticks' c v child father s ≡ ok (r, s')
    → Placed (scheduler s')
unfolding inherit
fill_child-Placed ret ticks ticks' c v none father s0 s same placed still h = cc
fill_child-Placed ret ticks ticks' c v (some p) none s0 s same placed still h = cc
fill_child-Placed ret ticks ticks' c v (some p) (some q) s0 s same placed still h =
    subst (λ k. Placed (scheduler k)) (second h)
      (start_child-Placed ret ticks ticks' c s0 (inherit v p q s) same placed still)

fork_task-Placed :
    (ret ticks ticks' c : ℕ) (taken : Option (List ℕ) × PhysMem) (s : Processes) {r : ℤ}
    {s' : Processes}
    → Placed (scheduler s)
    → (IsOrdinary c (scheduler s) → c ≢ (scheduler s).current)
    → fork_task ret ticks ticks' c taken s ≡ ok (r, s')
    → Placed (scheduler s')
unfolding copy_task
fork_task-Placed ret ticks ticks' c (none, m) s placed still h =
    subst (λ k. Placed (scheduler k)) (second h) placed
fork_task-Placed ret ticks ticks' c (some v, m) s placed still h =
    let s1 = set_scheduler (list_del c (scheduler s)) (record s { phys_mem = m }) in
    let copied = copy_task (scheduler s).current c s1 in
    let s2 = give_dir c copied in
    fill_child-Placed ret ticks ticks' c v (s2.dir c) (s2.dir (scheduler s).current) (scheduler s)
      s2 (give_dir-SamePlaces c copied) placed still h

fork_first-Placed :
    (ret ticks ticks' : ℕ) (free : List ℕ) (s : Processes) {r : ℤ} {s' : Processes}
    → (scheduler s).freequeue ≡ free
    → Placed (scheduler s)
    → fork_first ret ticks ticks' free s ≡ ok (r, s')
    → Placed (scheduler s')
fork_first-Placed ret ticks ticks' [] s is placed h =
    subst (λ k. Placed (scheduler k)) (second h) placed
fork_first-Placed ret ticks ticks' (c ∷ rest) s is placed h =
    fork_task-Placed ret ticks ticks' c (take_frames num_pag_data [] s.phys_mem) s placed
      (first_free-still c rest (scheduler s) placed is) h

pub sys_fork-Placed :
    (ret ticks ticks' : ℕ) (s : Processes) {r : ℤ} {s' : Processes}
    → Placed (scheduler s)
    → sys_fork ret ticks ticks' s ≡ ok (r, s')
    → Placed (scheduler s')
unfolding sys_fork
sys_fork-Placed ret ticks ticks' s placed h =
    fork_first-Placed ret ticks ticks' (scheduler s).freequeue s refl placed h
