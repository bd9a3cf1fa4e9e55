-- ===== src/Sys/Files.antt =====
-- The system calls on files of zeos_full/sys.c, and `sys_write_console` of zeos_full/devices.c.
pub mod Calls
pub mod Transfer
pub mod Seek
use ze_os_filesystem.Base.{
  ℕ, zero, suc, ◌+◌, ◌-◌, ◌%◌, ◌^◌, Bool, true, false, not, ◌&&◌, ◌||◌, ltb, ◌==◌, if◌then◌else◌,
  Option, none, some, List, [], ◌∷◌, length, slice, Result, ok, fault, ◌>>=◌, ◌>>◌, require,
}
use ze_os_filesystem.Base.Int.{ℤ, pos, negsuc, neg, eq_ℤ, ltb_ℤ, add_int}
use ze_os_filesystem.Fat.{Buffer, FileSystem}
use ze_os_filesystem.Fat.Entry.{write_bytes}
use ze_os_filesystem.Fat.File.{write_file_at, read_file_at}
use ze_os_filesystem.Fat.Search.{search_file}
use ze_os_filesystem.Fat.Directory.{Stack, create_file, delete_file}
use ze_os_filesystem.Utils.{verify_read, verify_write, access_ok}
use ze_os_filesystem.Sys.{
  ChannelEntry, OpenFile, Kernel, open_file_table_size, channel_table_size, lectura, escriptura,
  eio, ebadf, efault, einval, emfile, channel, open_file, set_channel, set_open_file, minus_two,
  closed_file, check_fd,
}
use ze_os_filesystem.Sys.Path.{filename_size, PathBuffers, split_filename}

-- The bytes appear on the screen in their order.
write_console : List ℕ → List ℕ → List ℕ
write_console [] screen = screen
write_console (c ∷ bytes) screen = write_console bytes (c ∷ screen)

-- The branch `fd > 1`; `writeFile` always returns 0.
unfoldable pub write_to_file : (ℕ → ℕ) → ℤ → ℕ → ℕ → Kernel → Result (ℤ × Kernel)
write_to_file stack fd buffer nbytes s = do
  index ← minus_two fd
  let oft_entry = (channel s index).oft_entry_num
  let file = open_file s oft_entry
  fs ←
      write_file_at stack file.start_cluster (slice s.memory buffer nbytes) file.access_offset
        s.file_system
  moved ← add_int file.access_offset (pos nbytes)
  s ←
      set_open_file oft_entry (record file { access_offset = moved })
        (record s { file_system = fs })
  ok (pos 0, s)

-- The pieces of 512 bytes in which a buffer goes to the screen are those of the whole, in order, and
-- `sys_write_console` returns their size.
unfoldable pub sys_write : (ℕ → ℕ) → ℤ → ℕ → ℤ → Kernel → Result (ℤ × Kernel)
unfolding write_console write_to_file
sys_write stack fd buffer (negsuc n) s = do
  ret ← check_fd fd escriptura s
  ok (if eq_ℤ ret (pos 0) then neg einval else ret, s)
sys_write stack fd buffer (pos nbytes) s = do
  ret ← check_fd fd escriptura s
  (if not (eq_ℤ ret (pos 0))
      then ok (ret, s)
      else if not (access_ok verify_read buffer nbytes)
      then ok (neg efault, s)
      else if eq_ℤ fd (pos 1)
      then ok
          (pos nbytes, record s { screen = write_console (slice s.memory buffer nbytes) s.screen })
      else if ltb_ℤ (pos 1) fd
      then write_to_file stack fd buffer nbytes s
      else ok (neg ebadf, s))

-- `readFile` always returns 0.
unfoldable pub read_from_file : ℤ → ℕ → ℕ → Kernel → Result (ℤ × Kernel)
read_from_file fd buffer nbytes s = do
  index ← minus_two fd
  let oft_entry = (channel s index).oft_entry_num
  let file = open_file s oft_entry
  bytes ← read_file_at file.start_cluster nbytes file.access_offset s.file_system
  moved ← add_int file.access_offset (pos nbytes)
  s ←
      set_open_file oft_entry (record file { access_offset = moved })
        (record s { memory = write_bytes s.memory buffer bytes })
  ok (pos 0, s)

unfoldable pub sys_read : ℤ → ℕ → ℤ → Kernel → Result (ℤ × Kernel)
unfolding read_from_file
sys_read fd buffer (negsuc n) s = do
  ret ← check_fd fd lectura s
  ok (if eq_ℤ ret (pos 0) then neg einval else ret, s)
sys_read fd buffer (pos nbytes) s = do
  ret ← check_fd fd lectura s
  (if not (eq_ℤ ret (pos 0))
      then ok (ret, s)
      else if not (access_ok verify_write buffer nbytes)
      then ok (neg efault, s)
      else read_from_file fd buffer nbytes s)

-- `n` rounds from entry `i` on: the first channel whose number is not its place plus two.
unfoldable pub free_channel : (ℕ → ChannelEntry) → ℕ → ℕ → Option ℕ
free_channel channels zero i = none
free_channel channels (suc n) i =
    let rest = free_channel channels n (i + 1) in
    if eq_ℤ ((channels i).fd) (pos (i + 2)) then rest else some i

-- `n` rounds from entry `i` on: the first unused entry of the open file table.
unfoldable pub free_open_file : (ℕ → OpenFile) → ℕ → ℕ → Option ℕ
free_open_file files zero i = none
free_open_file files (suc n) i =
    let rest = free_open_file files n (i + 1) in
    if (files i).start_cluster == 0 then some i else rest

-- Once the file's cluster is known. The loop over the open file table has the variable `i` of the
-- loop over the channels: behind it `i` is the place in the open file table.
unfoldable pub open_channel : ℕ → ℤ → Kernel → Result (ℤ × Kernel)
open_channel file_cluster mode s = elim (free_channel s.channels channel_table_size 0) [
  | none ↦ ok (neg emfile, s)
  | some c ↦ elim (free_open_file s.open_files open_file_table_size 0) [
    | none ↦ ok (neg emfile, s)
    | some i ↦ do
      s ← set_channel (pos i) (record { fd = pos (i + 2); oft_entry_num = pos i }) s
      s ←
          set_open_file (pos i)
            (record {
              start_cluster = file_cluster;
              open_count = pos 1;
              access_offset = pos 0;
              permissions = mode;
            })
            s
      ok (pos (i + 2), s)
  ]
]

-- `(DWord)ret`
to_unsigned : ℤ → ℕ
to_unsigned (pos n) = n % 2 ^ 32
to_unsigned (negsuc n) = 2 ^ 32 - 1 - n % 2 ^ 32

-- The file is created where the search does not find it; `none` is the return of `-EIO`.
find_or_create : ℕ → Stack → PathBuffers → List ℕ → Kernel → Result (Option ℕ × Kernel)
unfolding to_unsigned
find_or_create fuel stack buffers path s = do
  found ← search_file fuel path s.file_system
  if not (found == 0) then ok (some found, s) else do
    (dir, filename) ← split_filename filename_size buffers path
    (ret, fs) ← create_file fuel stack dir filename 0x20 s.file_system
    ok (if eq_ℤ ret (negsuc 0) then none else some (to_unsigned ret), record s { file_system = fs })

unfoldable pub sys_open : ℕ → Stack → PathBuffers → List ℕ → ℤ → Kernel → Result (ℤ × Kernel)
unfolding find_or_create
sys_open fuel stack buffers path mode s = do
  (cluster, s) ← find_or_create fuel stack buffers path s
  elim cluster [ none ↦ ok (neg eio, s) | some c ↦ open_channel c mode s ]

-- The channel is tested and cleared at `fd`, the open file is the one of the channel at `fd - 2`.
unfoldable pub sys_close : ℤ → Kernel → Result (ℤ × Kernel)
sys_close fd s = do
  expected ← add_int fd (pos 2)
  if not (eq_ℤ ((channel s fd).fd) expected) then ok (neg ebadf, s) else do
    index ← minus_two fd
    let oft_entry = (channel s index).oft_entry_num
    let file = open_file s oft_entry
    entry ←
        (if ltb_ℤ (pos 1) file.open_count
          then (do
            count ← add_int file.open_count (negsuc 0)
            ok (record file { open_count = count }))
          else ok closed_file)
    s ← set_open_file oft_entry entry s
    s ← set_channel fd (record (channel s fd) { fd = pos 0 }) s
    ok (pos 0, s)

unfoldable pub sys_unlink : ℕ → Stack → PathBuffers → List ℕ → Kernel → Result (ℤ × Kernel)
sys_unlink fuel stack buffers path s = do
  found ← search_file fuel path s.file_system
  (dir, filename) ← split_filename filename_size buffers path
  (ret, fs) ← delete_file fuel stack dir filename s.file_system
  ok (ret, record s { file_system = fs })

unfoldable pub sys_lseek : ℤ → ℤ → ℤ → Kernel → Result (ℤ × Kernel)
sys_lseek fd offset whence s =
    if not (eq_ℤ whence (pos 0)) && not (eq_ℤ whence (pos 1)) then ok (neg einval, s) else do
      index ← minus_two fd
      let entry = channel s index
      if not (eq_ℤ entry.fd fd) then ok (neg ebadf, s) else do
        let file = open_file s entry.oft_entry_num
        target ← (if eq_ℤ whence (pos 0) then ok offset else add_int file.access_offset offset)
        s ← set_open_file entry.oft_entry_num (record file { access_offset = target }) s
        ok (target, s)
