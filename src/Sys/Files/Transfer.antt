-- ===== src/Sys/Files/Transfer.antt =====
-- `sys_write` and `sys_read` of zeos_full/sys.c on open files.
use ze_os_filesystem.Base.{
  ℕ, ◌+◌, ◌^◌, ◌<◌, ◌≡◌, ◌≢◌, refl, true, false, ◌==◌, arith, List, length, length-slice, slice,
  update, ok, ◌>>=◌, lt→ltb, ==_ne, ==_self, ◌∙◌, ap, sym, subst,
}
use ze_os_filesystem.Base.Int.{ℤ, pos, ltb_ℤ, add_int-pos}
use ze_os_filesystem.Fat.{FileSystem}
use ze_os_filesystem.Fat.Entry.{write_bytes}
use ze_os_filesystem.Fat.Entry.Roundtrip.{slice-write_bytes}
use ze_os_filesystem.Fat.File.{write_file_at-pos, read_file_at-pos, write_file, read_file}
use ze_os_filesystem.Fat.File.Transfer.{Placed, read_file-write_file, write_file-patched}
use ze_os_filesystem.Utils.{verify_read, verify_write, access_ok}
use ze_os_filesystem.Sys.{Kernel, open_file_table_size, lectura, escriptura, check_fd}
use ze_os_filesystem.Sys.Files.{sys_write, sys_read, write_to_file, read_from_file}
use ze_os_filesystem.Sys.Files.Calls.{minus_two-pos}

-- Channel `k` leads to entry `o` of the open file table: a file from cluster `start` on, at byte
-- `offset`, opened for `mode`.
pub record OpenAt (s : Kernel) (k o start offset : ℕ) (mode : ℤ) : Type 0 where
  pub number : k + 2 < 2 ^ 31
  pub leads : (s.channels k).oft_entry_num ≡ pos o
  pub within : o < open_file_table_size
  pub file : (s.open_files o).start_cluster ≡ start
  pub live : start ≢ 0
  pub at : (s.open_files o).access_offset ≡ pos offset
  pub allowed : (s.open_files o).permissions ≡ mode

check_fd-OpenAt :
    (s : Kernel) (k o start offset m : ℕ)
    → OpenAt s k o start offset (pos m)
    → check_fd (pos (k + 2)) (pos m) s ≡ ok (pos 0)
unfolding check_fd
check_fd-OpenAt s k o start offset m h =
    rw
      (
        minus_two-pos k h.number,
        ◌>>=◌,
        h.leads,
        h.file,
        ==_ne (k + 2) 1 (omega arith),
        ==_ne start 0 h.live,
        h.allowed,
        ==_self m,
      )
      refl

-- The state once entry `o` has moved by `n` bytes from `offset`.
abbrev pub moved : ℕ → ℕ → ℕ → Kernel → Kernel
moved o offset n s = record s {
  open_files = update s.open_files o (record (s.open_files o) { access_offset = pos (offset + n) });
}

write_to_file-OpenAt :
    (stack : ℕ → ℕ) (s : Kernel) (k o start offset n buffer : ℕ) (mode : ℤ) (fs : FileSystem)
    → OpenAt s k o start offset mode
    → offset + n < 2 ^ 31
    → write_file stack start (slice s.memory buffer n) offset s.file_system ≡ ok fs
    → write_to_file stack (pos (k + 2)) buffer n s
      ≡ ok (pos 0, moved o offset n (record s { file_system = fs }))
unfolding write_to_file
write_to_file-OpenAt stack s k o start offset n buffer mode fs h fits e =
    rw
      (
        minus_two-pos k h.number,
        ◌>>=◌,
        h.leads,
        h.at,
        h.file,
        write_file_at-pos stack start (slice s.memory buffer n) offset s.file_system ∙ e,
        add_int-pos offset n fits,
        lt→ltb o 100 h.within,
      )
      refl

sys_write-OpenAt :
    (stack : ℕ → ℕ) (s : Kernel) (k o start offset n buffer : ℕ) (fs : FileSystem)
    → OpenAt s k o start offset escriptura
    → offset + n < 2 ^ 31
    → access_ok verify_read buffer n ≡ true
    → write_file stack start (slice s.memory buffer n) offset s.file_system ≡ ok fs
    → sys_write stack (pos (k + 2)) buffer (pos n) s
      ≡ ok (pos 0, moved o offset n (record s { file_system = fs }))
unfolding sys_write
sys_write-OpenAt stack s k o start offset n buffer fs h fits access e =
    let above : ltb_ℤ (pos 1) (pos (k + 2)) ≡ true = ground arith in
    rw (check_fd-OpenAt s k o start offset 1 h, ◌>>=◌, access, ==_ne (k + 2) 1 (omega arith), above)
      (write_to_file-OpenAt stack s k o start offset n buffer escriptura fs h fits e)

sys_read-OpenAt :
    (s : Kernel) (k o start offset n buffer : ℕ) (bytes : List ℕ)
    → OpenAt s k o start offset lectura
    → offset + n < 2 ^ 31
    → access_ok verify_write buffer n ≡ true
    → read_file start n offset s.file_system ≡ ok bytes
    → sys_read (pos (k + 2)) buffer (pos n) s
      ≡ ok (pos 0, moved o offset n (record s { memory = write_bytes s.memory buffer bytes }))
unfolding sys_read read_from_file
sys_read-OpenAt s k o start offset n buffer bytes h fits access e =
    rw
      (
        check_fd-OpenAt s k o start offset 0 h,
        ◌>>=◌,
        access,
        minus_two-pos k h.number,
        h.leads,
        h.at,
        h.file,
        read_file_at-pos start n offset s.file_system ∙ e,
        add_int-pos offset n fits,
        lt→ltb o 100 h.within,
        sys_read,
      )
      refl

-- What a write through one channel leaves of another.
OpenAt-moved :
    (s : Kernel) (fs : FileSystem) (k o k' o' start offset n : ℕ) (mode : ℤ)
    → OpenAt s k' o' start offset mode
    → o' ≢ o
    → OpenAt (moved o offset n (record s { file_system = fs })) k' o' start offset mode
OpenAt-moved s fs k o k' o' start offset n mode h other =
    let miss : (o' == o) ≡ false = ==_ne o' o other in
    record {
      number = h.number;
      leads = h.leads;
      within = h.within;
      file = rw miss h.file;
      live = h.live;
      at = rw miss h.at;
      allowed = rw miss h.allowed;
    }

-- Given two channels to different entries of the open file table, at the same byte of the same file,
-- the first opened for writing and the second for reading, buffers that `access_ok` lets through, and
-- a transfer that stays within its first cluster and the sector behind it: `sys_write` on the first
-- and then `sys_read` on the second return 0, the second buffer gets the bytes that the first had,
-- and both entries move by their number.
pub sys_read-sys_write :
    (stack : ℕ → ℕ) (s : Kernel) (k o k' o' start offset n d buffer buffer' : ℕ)
    → OpenAt s k o start offset escriptura
    → OpenAt s k' o' start offset lectura
    → o' ≢ o
    → offset + n < 2 ^ 31
    → access_ok verify_read buffer n ≡ true
    → access_ok verify_write buffer' n ≡ true
    → Placed s.file_system.bpb s.file_system start offset n d
    → (s1 : Kernel) × (s2 : Kernel) × (sys_write stack (pos (k + 2)) buffer (pos n) s
        ≡ ok (pos 0, s1))
      × (sys_read (pos (k' + 2)) buffer' (pos n) s1 ≡ ok (pos 0, s2))
      × (slice s2.memory buffer' n ≡ slice s.memory buffer n)
      × ((s2.open_files o).access_offset ≡ pos (offset + n))
      × ((s2.open_files o').access_offset ≡ pos (offset + n))
sys_read-sys_write stack s k o k' o' start offset n d buffer buffer' w r other fits from to p =
    let bytes = slice s.memory buffer n in
    let size : length bytes ≡ n = length-slice s.memory buffer n in
    let p' = subst (λ m. Placed s.file_system.bpb s.file_system start offset m d) (sym size) p in
    let (disk', e, _) = write_file-patched stack s.file_system start offset d bytes p' in
    let fs = record (s.file_system) { disk = disk' } in
    let s1 = moved o offset n (record s { file_system = fs }) in
    let back : read_file start n offset fs ≡ ok bytes =
      subst (λ m. read_file start m offset fs ≡ ok bytes) size
        (sym (ap (λ r. r >>= read_file start (length bytes) offset) e)
          ∙ read_file-write_file stack s.file_system start offset d bytes p') in
    (
      s1,
      moved o' offset n (record s1 { memory = write_bytes s.memory buffer' bytes }),
      sys_write-OpenAt stack s k o start offset n buffer fs w fits from e,
      sys_read-OpenAt s1 k' o' start offset n buffer' bytes
          (OpenAt-moved s fs k o k' o' start offset n lectura r other) fits to back,
      subst (λ m. slice (write_bytes s.memory buffer' bytes) buffer' m ≡ bytes) size
          (slice-write_bytes bytes s.memory buffer'),
      rw (==_ne o o' (λ e. other (sym e)), ==_self o) refl,
      rw (==_self o') refl,
    )
