-- ===== src/Sys.antt =====
-- zeos_full/sys.c: the open file table, the channel table of the running process, and the system
-- calls on files; the tables' entries are those of zeos_full/include/types.h.
pub mod Path
pub mod Files
use ze_os_filesystem.Base.{
  ℕ, zero, suc, ◌+◌, ◌-◌, Bool, true, false, not, ◌&&◌, ltb, ◌==◌, if◌then◌else◌, Option, none,
  some, List, update, Result, ok, fault, ◌>>=◌, ◌>>◌, require,
}
use ze_os_filesystem.Base.Int.{ℤ, pos, negsuc, neg, eq_ℤ, ltb_ℤ, add_int}
use ze_os_filesystem.Fat.{Buffer, FileSystem}

pub record ChannelEntry : Type 0 where
  pub fd : ℤ
  pub oft_entry_num : ℤ

pub record OpenFile : Type 0 where
  pub start_cluster : ℕ
  pub open_count : ℤ
  pub access_offset : ℤ
  pub permissions : ℤ

-- What the calls use: the file system, the two tables, the memory that user pointers point to, and
-- the screen, its last byte first. What the code reads before a table is whatever is there, as is
-- what it reads behind it; a write outside a table is undefined behaviour.
pub record Kernel : Type 0 where
  pub file_system : FileSystem
  pub open_files : ℕ → OpenFile
  pub before_open_files : ℕ → OpenFile
  pub channels : ℕ → ChannelEntry
  pub before_channels : ℕ → ChannelEntry
  pub memory : Buffer
  pub screen : List ℕ

abbrev pub open_file_table_size : ℕ
open_file_table_size = 100

abbrev pub channel_table_size : ℕ
channel_table_size = 10

abbrev pub lectura : ℤ
lectura = pos 0

abbrev pub escriptura : ℤ
escriptura = pos 1

-- zeos_full/include/errno.h
abbrev pub eio : ℕ
eio = 5

abbrev pub ebadf : ℕ
ebadf = 9

abbrev pub eacces : ℕ
eacces = 13

abbrev pub efault : ℕ
efault = 14

abbrev pub einval : ℕ
einval = 22

abbrev pub emfile : ℕ
emfile = 24

abbrev pub channel : Kernel → ℤ → ChannelEntry
channel s (pos i) = s.channels i
channel s (negsuc i) = s.before_channels i

abbrev pub open_file : Kernel → ℤ → OpenFile
open_file s (pos i) = s.open_files i
open_file s (negsuc i) = s.before_open_files i

abbrev pub set_channel : ℤ → ChannelEntry → Kernel → Result Kernel
set_channel (negsuc i) entry s = fault
set_channel (pos i) entry s = do
  require (ltb i channel_table_size)
  ok (record s { channels = update s.channels i entry })

abbrev pub set_open_file : ℤ → OpenFile → Kernel → Result Kernel
set_open_file (negsuc i) entry s = fault
set_open_file (pos i) entry s = do
  require (ltb i open_file_table_size)
  ok (record s { open_files = update s.open_files i entry })

-- `fd-2`
abbrev pub minus_two : ℤ → Result ℤ
minus_two fd = add_int fd (negsuc 1)

abbrev pub closed_file : OpenFile
closed_file = record {
  start_cluster = 0;
  open_count = pos 0;
  access_offset = pos 0;
  permissions = negsuc 0;
}

-- `n` rounds of the loop from entry `i` on.
clear_open_files : ℕ → ℕ → Kernel → Kernel
clear_open_files zero i s = s
clear_open_files (suc n) i s =
    clear_open_files n (i + 1) (record s { open_files = update s.open_files i closed_file })

unfoldable pub init_open_file_table : Kernel → Kernel
unfolding clear_open_files
init_open_file_table s = clear_open_files open_file_table_size 0 s

unfoldable pub check_fd : ℤ → ℤ → Kernel → Result ℤ
check_fd fd permissions s = do
  index ← minus_two fd
  let entry = open_file s ((channel s index).oft_entry_num)
  ok (
      if eq_ℤ fd (pos 1)
      then (if eq_ℤ permissions lectura then neg ebadf else pos 0)
      else if entry.start_cluster == 0
      then neg ebadf
      else if not (eq_ℤ permissions entry.permissions)
      then neg eacces
      else pos 0)
