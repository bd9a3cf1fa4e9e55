-- ===== src/Examples/Tables.antt =====
-- The small kernel: memory, frames, pages and open files.
use ze_os_filesystem.Base.{
  ℕ, ◌∷◌, [], map, ◌+◌, ◌*◌, ◌^◌, ◌<◌, ◌≤◌, ◌≡◌, refl, ◌↔◌, true, ltb, if◌then◌else◌, arith, slice,
  ok, fault, some, List,
}
use ze_os_filesystem.Base.Int.{pos}
use ze_os_filesystem.Fat.{Buffer}
use ze_os_filesystem.Fat.File.{walk_chain}
use ze_os_filesystem.Fat.File.Transfer.{Placed}
use ze_os_filesystem.Utils.{verify_read, verify_write, access_ok}
use ze_os_filesystem.Utils.Access.{access_ok_iff}
use ze_os_filesystem.Mm.{find_frame, PhysMem, PageTable, used_byte, no_entry, alloc_frame}
use ze_os_filesystem.Sys.{Kernel, channel_table_size}
use ze_os_filesystem.Sys.Files.{open_channel, sys_read, sys_write}
use ze_os_filesystem.Sys.Files.Calls.{FirstUnused, opened, open_channel-FirstUnused}
use ze_os_filesystem.Sys.Files.Transfer.{OpenAt, sys_read-sys_write}
use ze_os_filesystem.Sys.Files.Seek.{Seekable}
use ze_os_filesystem.Fat.Path.Components.{join, pad}
use ze_os_filesystem.Sys.Path.{PathBuffers, split_filename}
use ze_os_filesystem.Sys.Path.Loop.{path_rest}
use ze_os_filesystem.Sys.Path.Join.{split_filename-join}
use ze_os_filesystem.Examples.{example_disk, kernel}

abbrev counting : Buffer
counting k = k

access_ok_iff_example :
    (access_ok verify_write 1048576 64 ≡ true)
    ↔ ((256 * 2 ^ 12 ≤ 1048576) × (1048576 + 64 < 285 * 2 ^ 12))
access_ok_iff_example = access_ok_iff verify_write 1048576 64 (omega arith) (omega arith)

-- Every frame up to 299 is used.
abbrev frames : PhysMem
frames k = if ltb k 300 then used_byte else 0

abbrev pages : PageTable
pages k = no_entry

frame_taken : (alloc_frame frames).0 ≡ some 300
unfolding alloc_frame find_frame
frame_taken = refl

third_unused : FirstUnused kernel.open_files 2
third_unused = record { within = omega arith; unused = refl; first = λ k p. ground arith }

open_channel-FirstUnused_example :
    open_channel 9 (pos 0) kernel
    ≡ (if ltb 2 channel_table_size then ok (pos 4, opened 2 9 (pos 0) kernel) else fault)
open_channel-FirstUnused_example =
    open_channel-FirstUnused 9 (pos 0) kernel 5 2 (omega arith) refl third_unused

writable : OpenAt kernel 0 0 3 7 (pos 1)
writable = record {
  number = omega arith;
  leads = refl;
  within = omega arith;
  file = refl;
  live = omega arith;
  at = refl;
  allowed = refl;
}

readable : OpenAt kernel 1 1 3 7 (pos 0)
readable = record {
  number = omega arith;
  leads = refl;
  within = omega arith;
  file = refl;
  live = omega arith;
  at = refl;
  allowed = refl;
}

in_first_cluster : Placed example_disk.bpb example_disk 3 7 4 3
unfolding walk_chain
in_first_cluster = record {
  sector_size = refl;
  has_sectors = omega arith;
  walk = refl;
  room = omega arith;
  fits = omega arith;
}

may_read : access_ok verify_read 1048576 4 ≡ true
unfolding access_ok
may_read = refl

may_write : access_ok verify_write 1085440 4 ≡ true
unfolding access_ok
may_write = refl

sys_read-sys_write_example :
    (s1 : Kernel) × (s2 : Kernel) × (sys_write (λ k. 0) (pos 2) 1048576 (pos 4) kernel
      ≡ ok (pos 0, s1))
    × (sys_read (pos 3) 1085440 (pos 4) s1 ≡ ok (pos 0, s2))
    × (slice s2.memory 1085440 4 ≡ slice kernel.memory 1048576 4)
    × ((s2.open_files 0).access_offset ≡ pos 11)
    × ((s2.open_files 1).access_offset ≡ pos 11)
sys_read-sys_write_example =
    sys_read-sys_write (λ k. 0) kernel 0 0 1 1 3 7 4 3 1048576 1085440 writable readable
      (omega arith) (omega arith) may_read may_write in_first_cluster

second_channel : Seekable kernel 1 1
second_channel = record { number = omega arith; own = refl; leads = refl; within = omega arith }

abbrev buffers : PathBuffers
buffers = record { directory = λ k. 0; filename = λ k. 0 }

-- `/D1/F0`
split_filename-join_example :
    (11 < 12
      → split_filename 12 buffers (b'/' ∷ path_rest ((b'D' ∷ b'1' ∷ []) ∷ []) (b'F' ∷ b'0' ∷ []))
        ≡ ok (join (map (pad 11) ((b'D' ∷ b'1' ∷ []) ∷ [])), pad 11 (b'F' ∷ b'0' ∷ [])))
    × (12 ≤ 11 → (path : List ℕ) → split_filename 12 buffers path ≡ fault)
split_filename-join_example =
    split_filename-join 12 buffers b'/' (b'D' ∷ b'1' ∷ []) [] (b'F' ∷ b'0' ∷ [])
      ((refl, omega arith), tt) (refl, tt) (refl, omega arith) (omega arith) (omega arith)
