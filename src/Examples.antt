-- ===== src/Examples.antt =====
-- A small kernel, on which the results for the kernel's tables and queues are applied.
mod Drives
mod Texts
mod Calls
mod Processes
mod Tables
mod Queues
mod Rings
use ze_os_filesystem.Base.{ℕ, ◌+◌, ◌==◌, ◌≡◌, ltb, if◌then◌else◌, refl, [], ◌∷◌, arith}
use ze_os_filesystem.Base.Int.{ℤ, pos, negsuc}
use ze_os_filesystem.Fat.{FileSystem, end_of_chain}
use ze_os_filesystem.Fat.Search.{unset_entry}
use ze_os_filesystem.Sys.{ChannelEntry, OpenFile, Kernel, closed_file}
use ze_os_filesystem.Sched.{Task, Stats, Scheduler, init_stats}
use ze_os_filesystem.Sem.{Sem, Semaphores}

abbrev pub example_disk : FileSystem
example_disk = record {
  bpb = record {
    bytes_per_sector = 512;
    sectors_per_cluster = 1;
    reserved_sectors = 32;
    fats = 1;
    root_dir_entries = 0;
    num_sectors = 2048;
    media_descriptor = 0xF8;
    sectors_per_track = 0;
    num_heads = 0;
    hidden_sectors = 0;
    num_sectors_lsc = 0;
  };
  ebr = record {
    sectors_per_fat = 16;
    flags = 0;
    fat_version = 0;
    root_cluster_num = 2;
    fs_info_sector_num = 1;
    bk_boot_sector_num = 6;
    drive_num = 0x80;
    signature = 0x29;
    system_id = [];
  };
  info = record {
    lead_signature = 0;
    other_signature = 0;
    last_known_cluster = 2;
    where_clusters = 5;
    trail_signature = 0;
  };
  root_directory = unset_entry;
  fat = λ c. end_of_chain;
  disk = λ b k. 0;
}

-- Channels 0 and 1 are open, for a write and for a read of the file at cluster 3, and channel 2 is
-- free.
abbrev pub kernel : Kernel
kernel = record {
  file_system = example_disk;
  open_files = λ i.
      if ltb i 2
      then record {
        start_cluster = 3;
        open_count = pos 1;
        access_offset = pos 7;
        permissions = if i == 0 then pos 1 else pos 0;
      }
      else closed_file;
  before_open_files = λ i. closed_file;
  channels = λ i.
      if ltb i 2
      then record { fd = pos (i + 2); oft_entry_num = pos i }
      else record { fd = pos 0; oft_entry_num = negsuc 0 };
  before_channels = λ i. record { fd = pos 0; oft_entry_num = negsuc 0 };
  memory = λ a. a;
  screen = [];
}

-- Task 1 runs with its last tick; tasks 2 and 3 are ready; tasks 4 and 5 wait for semaphore 0.
abbrev pub scheduler : Scheduler
scheduler = record {
  task = λ t. record { pid = pos t; quantum = 30; stats = init_stats 0 0 };
  freequeue = [];
  readyqueue = 2 ∷ 3 ∷ [];
  blocked = λ i. if i == 0 then 4 ∷ 5 ∷ [] else [];
  current = 1;
  idle_task = 0;
  quantum_left = pos 1;
  dir_usage = λ i. pos 0;
  next_pid = 6;
}

abbrev pub semaphores : Semaphores
semaphores = record {
  semafors = λ i. record { id = i; count = 0; owner = pos 1; used = pos 1 };
  scheduler = scheduler;
}
