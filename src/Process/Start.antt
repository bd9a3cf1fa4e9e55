-- ===== src/Process/Start.antt =====
-- `init_idle` and `init_task1` of zeos_full/sched.c.
use ze_os_filesystem.Base.{
  ℕ, ◌+◌, ◌%◌, ◌^◌, ltb, if◌then◌else◌, Option, none, some, List, [], ◌∷◌, update, Result, ok,
  fault,
}
use ze_os_filesystem.Base.Int.{as_int, pos, negsuc}
use ze_os_filesystem.Sched.{list_del, init_stats}
use ze_os_filesystem.Mm.{set_user_pages}
use ze_os_filesystem.Sys.{ChannelEntry}
use ze_os_filesystem.Process.{
  scheduler, set_scheduler, default_quantum, give_dir, set_pid, Processes,
}

-- `init_idle`; `cpu_idle` is the address of that routine. An empty free queue would be read as a task.
unfoldable pub init_idle : ℕ → ℕ → ℕ → Processes → Result Processes
init_idle cpu_idle ticks ticks' s = elim ((scheduler s).freequeue) [
  | [] ↦ fault
  | t ∷ _ ↦
      let sched = list_del t (scheduler s) in
      let numbered = record (set_pid t (as_int sched.next_pid) sched) {
        next_pid = (sched.next_pid + 1) % 2 ^ 32;
      } in
      let s1 = give_dir t (set_scheduler numbered s) in
      let task = record ((scheduler s1).task t) {
        stats = init_stats ticks ticks';
        quantum = default_quantum;
      } in
      let sched1 = scheduler s1 in
      let words = update (update (s1.stack t) 1023 cpu_idle) 1022 0 in
      ok
        (record (set_scheduler (record sched1 { task = update sched1.task t task; idle_task = t })
          s1) { stack = update s1.stack t words; kernel_esp = update s1.kernel_esp t 1022 })
]

abbrev pub unused_channel : ChannelEntry
unused_channel = record { fd = pos 0; oft_entry_num = negsuc 0 }

-- The first process's pages and fields, in the directory that it has.
abbrev pub enter_task1 : ℕ → ℕ → ℕ → Option ℕ → Processes → Result Processes
enter_task1 ticks ticks' t none s = fault
enter_task1 ticks ticks' t (some i) s =
    let (table, m) = set_user_pages (s.tables i) s.phys_mem in
    let sched = scheduler s in
    let task = record (sched.task t) {
      stats = init_stats ticks ticks';
      quantum = default_quantum;
    } in
    ok
      (record (set_scheduler
        (record sched { task = update sched.task t task; quantum_left = pos default_quantum }) s) {
          tables = update s.tables i table;
          phys_mem = m;
          channels = update s.channels t (λ k. if ltb k 10 then unused_channel else s.channels t k);
        })

abbrev pub start_task1 : ℕ → ℕ → List ℕ → Processes → Result Processes
start_task1 ticks ticks' [] s = fault
start_task1 ticks ticks' (t ∷ _) s =
    let sched = list_del t (scheduler s) in
    let numbered = record (set_pid t (as_int sched.next_pid) sched) {
      next_pid = (sched.next_pid + 1) % 2 ^ 32;
    } in
    let s1 = give_dir t (set_scheduler numbered s) in enter_task1 ticks ticks' t (s1.dir t) s1

-- `init_task1`, without the registers of the processor.
unfoldable pub init_task1 : ℕ → ℕ → Processes → Result Processes
init_task1 ticks ticks' s = start_task1 ticks ticks' ((scheduler s).freequeue) s
