-- ===== src/Process/Charges.antt =====
-- `sys_getstats` of zeos_full/sys.c.
use ze_os_filesystem.Base.{
  ℕ, ◌+◌, ◌-◌, ◌%◌, ◌^◌, ◌≤◌, ◌<◌, ◌≡◌, ◌≢◌, ==_ne, refl, true, false, some, update_self, ap, ◌∙◌,
  arith,
}
use ze_os_filesystem.Base.Int.{pos, ltb_ℤ}
use ze_os_filesystem.Utils.{access_ok, verify_write}
use ze_os_filesystem.Sched.{Stats, Task, nr_tasks, finish_system_time, finish_user_time, set_stats}
use ze_os_filesystem.Process.{Processes, scheduler, set_scheduler}
use ze_os_filesystem.Process.Statistics.{find_pid, read_stats, unsigned_of, stats_of, sys_getstats}

allowed :
    (ticks pid address : ℕ) (s : Processes)
    → address ≢ 0
    → access_ok verify_write address 28 ≡ true
    → sys_getstats ticks (pos pid) address s
      ≡ stats_of ticks (find_pid (pos pid) nr_tasks 0 (scheduler s).task) s
unfolding sys_getstats
allowed ticks pid address s some' may =
    let natural : ltb_ℤ (pos pid) (pos 0) ≡ false = ground arith in
    rw (natural, ==_ne address 0 some', may) refl

-- For a number that is not negative, an address that the process may write, and a task `t` that is the
-- first with the number, all its counters below 2 ^ 32, `ticks` not before its last one: `sys_getstats`
-- returns 0, and shows the statistics with the quantum that the running task has left. When
-- `finish_user_time` next charges the task, at `later`, it adds the ticks since the call and
-- `remaining_ticks` besides.
pub sys_getstats-charges :
    (ticks later pid address t : ℕ) (s : Processes)
    → address ≢ 0
    → access_ok verify_write address 28 ≡ true
    → find_pid (pos pid) nr_tasks 0 (scheduler s).task ≡ some t
    → ticks ≤ later
    → later < 2 ^ 32
    → ((scheduler s).task t).stats.remaining_ticks < 2 ^ 32
    → (shown : Stats) × (s' : Processes) × (sys_getstats ticks (pos pid) address s
        ≡ (pos 0, some shown, s'))
      × (shown.remaining_ticks ≡ unsigned_of (scheduler s).quantum_left)
      × (shown.user_ticks ≡ ((scheduler s).task t).stats.user_ticks)
      × ((finish_user_time later ((scheduler s').task t).stats).user_ticks
          ≡ (((scheduler s).task t).stats.user_ticks
              + (later - ticks)
              + ((scheduler s).task t).stats.remaining_ticks)
            % 2 ^ 32)
unfolding finish_user_time finish_system_time
sys_getstats-charges ticks later pid address t s some' may found since small rem =
    let old = ((scheduler s).task t).stats in
    let kept = read_stats ticks old in
    let at = update_self (scheduler s).task t (record ((scheduler s).task t) { stats = kept }) in
    (
      record kept { remaining_ticks = unsigned_of (scheduler s).quantum_left },
      set_scheduler (set_stats t kept (scheduler s)) s,
      allowed ticks pid address s some' may ∙ ap (λ o. stats_of ticks o s) found,
      refl,
      refl,
      ap (λ (k : Task). (finish_user_time later k.stats).user_ticks) at ∙ omega arith,
    )
