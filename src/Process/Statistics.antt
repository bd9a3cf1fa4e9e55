-- ===== src/Process/Statistics.antt =====
-- `sys_getstats` of zeos_full/sys.c.
use ze_os_filesystem.Base.{
  ℕ, zero, suc, ◌+◌, ◌-◌, ◌%◌, ◌^◌, not, ◌==◌, if◌then◌else◌, Option, none, some,
}
use ze_os_filesystem.Base.Int.{ℤ, pos, negsuc, neg, eq_ℤ, ltb_ℤ}
use ze_os_filesystem.Utils.{access_ok, verify_write}
use ze_os_filesystem.Sched.{Task, Stats, nr_tasks, finish_system_time, set_stats}
use ze_os_filesystem.Process.{scheduler, set_scheduler, efault, Processes}

-- `n` rounds of the loop of `sys_getstats` from task `i` on.
unfoldable pub find_pid : ℤ → ℕ → ℕ → (ℕ → Task) → Option ℕ
find_pid pid zero i task = none
find_pid pid (suc n) i task =
    let rest = find_pid pid n (i + 1) task in if eq_ℤ ((task i).pid) pid then some i else rest

-- `quantum_left`, an `int`, as `unsigned long`.
abbrev pub unsigned_of : ℤ → ℕ
unsigned_of (pos n) = n % 2 ^ 32
unsigned_of (negsuc n) = 2 ^ 32 - 1 - n % 2 ^ 32

-- What the kernel keeps of a task's statistics, before `remaining_ticks` is put back too.
abbrev pub read_stats : ℕ → Stats → Stats
read_stats ticks stats =
    let finished = finish_system_time ticks stats in
    let left = (finished.elapsed_total_ticks + 2 ^ 32 - finished.remaining_ticks) % 2 ^ 32 in
    record finished { elapsed_total_ticks = left }

-- The result, and what is written at the address `s`, if anything is.
abbrev pub stats_of : ℕ → Option ℕ → Processes → ℤ × Option Stats × Processes
stats_of ticks none s = (negsuc 0, none, s)
stats_of ticks (some t) s =
    let sched = scheduler s in
    let kept = read_stats ticks ((sched.task t).stats) in
    let shown = record kept { remaining_ticks = unsigned_of sched.quantum_left } in
    (pos 0, some shown, set_scheduler (set_stats t kept sched) s)

unfoldable pub sys_getstats : ℕ → ℤ → ℕ → Processes → ℤ × Option Stats × Processes
sys_getstats ticks pid address s =
    if ltb_ℤ pid (pos 0)
    then (negsuc 0, none, s)
    else if address == 0
    then (neg efault, none, s)
    else if not (access_ok verify_write address 28)
    then (neg efault, none, s)
    else stats_of ticks (find_pid pid nr_tasks 0 (scheduler s).task) s
