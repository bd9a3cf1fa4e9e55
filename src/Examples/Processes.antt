-- ===== src/Examples/Processes.antt =====
-- The theorems on the processes of zeos_full/sys.c at a small kernel.
use ze_os_filesystem.Base.{
  ℕ, zero, suc, ◌+◌, ◌<◌, ◌≡◌, ◌≢◌, refl, Bool, true, ltb, leb, ◌==◌, ==_iff, if◌then◌else◌,
  tested_below, tested_below_at, List, [], ◌∷◌, Option, none, some, ok, arith,
}
use ze_os_filesystem.Base.Int.{pos, add_int, ◌+ℤ◌}
use ze_os_filesystem.Utils.{access_ok}
use ze_os_filesystem.Sched.{
  init_sched, Scheduler, Queue, scheduling, update_sched_data_rr, needs_sched_rr, sched_next_rr,
  update_process_state_rr, free_queue, ready_queue, blocked_queue, remove, free_dir, nr_tasks,
}
use ze_os_filesystem.Sem.{Semaphores, destroy_owned, destroy_owned_sems}
use ze_os_filesystem.Mm.Pages.{GivenBack}
use ze_os_filesystem.Mm.{get_frame, alloc_frame, find_frame, free_byte, used_byte}
use ze_os_filesystem.Process.{
  Processes, scheduler, take_frames, sys_fork, sys_clone, sys_exit, set_dir_usage, set_scheduler,
}
use ze_os_filesystem.Process.Start.{init_idle, init_task1}
use ze_os_filesystem.Process.Fork.{Inherited, sys_fork-Inherited}
use ze_os_filesystem.Process.Clone.{sys_clone-shares}
use ze_os_filesystem.Process.Exit.{sys_exit-pages}
use ze_os_filesystem.Process.Boot.{Steps-init_task1}
use ze_os_filesystem.Process.Runs.{Steps, start, then_step, tick, Steps-Placed}
use ze_os_filesystem.Sched.Places.{Placed, tasks, count, is_at}
use ze_os_filesystem.Examples.{kernel, scheduler as ready_tasks}

-- Task 1 runs with directory 0, which it alone uses, and tasks 6 to 9 are free. The frames from 300 on
-- are free. No semaphore is in use.
abbrev processes : Processes
processes = record {
  semaphores = record {
    semafors = λ i. record { id = i; count = 0; owner = pos 1; used = pos 0 };
    scheduler = record (ready_tasks) {
      freequeue = 6 ∷ 7 ∷ 8 ∷ 9 ∷ [];
      dir_usage = λ i. if i == 0 then pos 1 else pos 0;
    };
  };
  phys_mem = λ f. if ltb f 300 then used_byte else free_byte;
  tables = λ i. λ k. record { present = 1; rw_bit = 1; user = 1; flags = 0; pbase_addr = 280 };
  dir = λ t. some 0;
  pages = λ f k. f + k;
  channels = λ t. kernel.channels;
  stack = λ t k. 0;
  kernel_esp = λ t. 0;
}

abbrev frames : List ℕ
frames =
    300 ∷ 302 ∷ 304 ∷ 306 ∷ 308 ∷ 310 ∷ 312 ∷ 314 ∷ 316 ∷ 318 ∷ 320 ∷ 322 ∷ 324 ∷ 326 ∷ 328 ∷ 330
    ∷ 332 ∷ 334 ∷ 336 ∷ 338 ∷ []

frames-taken : (take_frames 20 [] processes.phys_mem).0 ≡ some frames
unfolding take_frames alloc_frame find_frame
frames-taken = refl

directory-free : free_dir (scheduler processes).dir_usage nr_tasks 0 ≡ some 1
unfolding free_dir
directory-free = refl

abbrev second : ℕ
second = 1

apart : second ≢ zero
apart e = omega (arith, e)

data-used : (k : ℕ) → processes.phys_mem (get_frame (processes.tables 0) k) ≢ free_byte
unfolding get_frame
data-used k e = omega (arith, e)

sys_fork-Inherited_example :
    (s' : Processes) × (sys_fork 99 9 9 processes ≡ ok (pos 7, s'))
    × Inherited 1 0 apart frames processes.tables s'.tables processes.pages s'.pages
    × (s'.dir 6 ≡ some 1)
    × (s'.dir 1 ≡ some 0)
    × (s'.channels 6 ≡ kernel.channels)
    × ((scheduler s').readyqueue ≡ 2 ∷ 3 ∷ 6 ∷ [])
unfolding remove
sys_fork-Inherited_example =
    sys_fork-Inherited 99 9 9 6 1 0 1 (7 ∷ 8 ∷ 9 ∷ []) frames processes apart refl refl
      (λ e. omega (arith, e)) refl directory-free frames-taken (λ k lo hi. data-used k)

sys_clone-shares_example :
    (s' : Processes) × (sys_clone 99 9 9 0x100000 0x108000 processes ≡ ok (pos 7, s'))
    × (s'.tables ≡ processes.tables)
    × (s'.phys_mem ≡ processes.phys_mem)
    × (s'.pages ≡ processes.pages)
    × (s'.dir 6 ≡ some 0)
    × ((scheduler s').dir_usage 0 ≡ pos 2)
    × (s'.stack 6 1022 ≡ 0x108000)
    × (s'.stack 6 1019 ≡ 0x100000)
    × ((scheduler s').readyqueue ≡ 2 ∷ 3 ∷ 6 ∷ [])
unfolding access_ok remove
sys_clone-shares_example =
    sys_clone-shares 99 9 9 0x100000 0x108000 6 1 0 1 (7 ∷ 8 ∷ 9 ∷ []) processes
      (λ e. omega (arith, e)) (λ e. omega (arith, e)) refl refl refl refl refl (omega arith) refl
      (omega arith)

abbrev no_semaphores : Semaphores
no_semaphores = (set_dir_usage 0 (pos 0) processes).semaphores

none-destroyed : destroy_owned_sems (pos 1) no_semaphores ≡ ok no_semaphores
unfolding destroy_owned_sems destroy_owned
none-destroyed = refl

sys_exit-pages_example :
    (s' : Processes) × (sys_exit 9 9 processes ≡ ok s')
    × (0 < 0 → (s'.tables ≡ processes.tables) × (s'.phys_mem ≡ processes.phys_mem))
    × (zero ≡ 0
        → GivenBack (processes.tables 0) (s'.tables 0) processes.phys_mem s'.phys_mem
          × ((q : ℕ) → q ≢ 0 → s'.tables q ≡ processes.tables q))
sys_exit-pages_example =
    sys_exit-pages 9 9 1 0 0 processes no_semaphores refl refl (omega arith) refl (omega arith)
      none-destroyed

-- Where the ten tasks are.
abbrev places : ℕ → Option Queue
places t =
    if leb t 1
    then none
    else (if leb t 3
        then some ready_queue
        else (if leb t 5 then some (blocked_queue 0) else some free_queue))

-- The place of each task agrees with a queue.
abbrev agrees : Queue → ℕ → Bool
agrees q t = count t (tasks q (scheduler processes)) == (if is_at (places t) q then 1 else 0)

blocked-agrees : (i t : ℕ) → t < 10 → agrees (blocked_queue i) t ≡ true
unfolding count tested_below
blocked-agrees zero t small = tested_below_at 10 (agrees (blocked_queue 0)) t refl small
blocked-agrees (suc i) t small = ground arith

queue-agrees : (q : Queue) (t : ℕ) → t < 10 → agrees q t ≡ true
unfolding count tested_below
queue-agrees free_queue t small = tested_below_at 10 (agrees free_queue) t refl small
queue-agrees ready_queue t small = tested_below_at 10 (agrees ready_queue) t refl small
queue-agrees (blocked_queue i) t small = blocked-agrees i t small

processes-Placed : Placed (scheduler processes)
processes-Placed = record {
  place = places;
  queued = λ t ordinary q. (==_iff _ _).0 (queue-agrees q t ordinary.0);
  running = λ t (small, busy). ground arith;
}

abbrev ticked : Scheduler
ticked = sched_next_rr 9 9 (
    update_process_state_rr 1 (some ready_queue)
      (record (scheduler processes) { quantum_left = pos 0 }))

ticked_lem : scheduling 9 9 (scheduler processes) ≡ ok ticked
unfolding scheduling update_sched_data_rr needs_sched_rr add_int ◌+ℤ◌
ticked_lem = refl

Steps-Placed_example : Placed ticked
Steps-Placed_example =
    Steps-Placed (then_step start (tick {s = processes} 9 9 ticked_lem)) processes-Placed

-- The same before its start: no task waits.
abbrev unstarted : Processes
unstarted = set_scheduler (record (scheduler processes) { blocked = λ i. [] }) processes

Steps-init_task1_example :
    (s1 s2 : Processes) × (init_idle 77 9 9
        (set_scheduler (init_sched (scheduler unstarted)) unstarted)
      ≡ ok s1)
    × (init_task1 9 9 s1 ≡ ok s2)
    × ((s' : Processes)
        → Steps (set_scheduler (record (scheduler s2) { current = 8 }) s2) s'
        → Placed (scheduler s'))
Steps-init_task1_example = Steps-init_task1 77 9 9 unstarted (λ i. refl)
