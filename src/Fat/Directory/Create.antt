-- ===== src/Fat/Directory/Create.antt =====
-- What `createFile` adds to a directory, and that the search finds it there.
use ze_os_filesystem.Base.{
  ℕ, zero, suc, ◌+◌, ◌*◌, ◌%◌, ◌^◌, ◌≤◌, ◌<◌, ◌≡◌, ◌≢◌, refl, inl, inr, true, false, ◌==◌,
  if◌then◌else◌, arith, List, update, ok, some, Bool-cases, ◌∙◌, ap, sym, lt→ltb, ==_self, ==_ne,
}
use ze_os_filesystem.Base.Int.{pos, negsuc}
use ze_os_filesystem.Fat.{
  Buffer, DirectoryEntry, FileSystem, fat_size, bad_cluster, end_of_chain, get_disk_sector,
  ide_read, ide_write, set_fat,
}
use ze_os_filesystem.Fat.Boot.{dword_at}
use ze_os_filesystem.Fat.Entry.{set_directory_entry}
use ze_os_filesystem.Fat.Table.Copy.{copy_fat_to_disk_first}
use ze_os_filesystem.Fat.Cluster.{hint, allocate_cluster}
use ze_os_filesystem.Fat.Cluster.Allocate.{
  FirstFree, NoneFree, taken, allocate_cluster_first, allocate_cluster_full,
}
use ze_os_filesystem.Fat.Search.{entries_per_sector, entry_at, search_file}
use ze_os_filesystem.Fat.Directory.{
  Stack, filled_entry, create_entry, create_in_sector, create_in_cluster, create_loop, create_file,
}
use ze_os_filesystem.Fat.Directory.Delete.{entry_first}

-- The end of the directory is entry `m` of this sector, and no entry before it.
pub record EndsAt (sector : Buffer) (m : ℕ) : Type 0 where
  pub end : sector (32 * m) ≡ 0
  pub live : (k : ℕ) → k < m → sector (32 * k) ≢ 0

-- The sector with the new entry and the end of the directory behind it.
abbrev pub with_entry : Buffer → ℕ → DirectoryEntry → Buffer
with_entry sector i entry = update (set_directory_entry sector entry i) (i + 32) 0x00

module _ (stack : Stack) (filename : List ℕ) (attributes dir num disk_sector : ℕ) (sector : Buffer)
    (fs : FileSystem) where
  create_in_sector-EndsAt :
      (n i m k : ℕ)
      → EndsAt sector m
      → i ≡ 32 * k
      → k ≤ m
      → m < k + n
      → create_in_sector stack filename attributes dir fs num disk_sector sector n i
        ≡ some (create_entry stack filename attributes dir num disk_sector sector (32 * m) fs)
  unfolding create_in_sector
  create_in_sector-EndsAt zero i m k ends at before within = absurd (omega arith)
  create_in_sector-EndsAt (suc n) i m k ends at before within = elim (Bool-cases (k == m)) [
    | inl last ↦
        let place : i ≡ 32 * m = ground arith in
        let zero_byte : (sector i == 0) ≡ true = ground (arith, ends.end) in
        rw (entry_first sector i (omega arith), zero_byte)
          (ap
            (λ (i : ℕ).
              some (create_entry stack filename attributes dir num disk_sector sector i fs))
            place)
    | inr earlier ↦
        let live_byte : (sector i == 0) ≡ false = ground (arith, ends.live k) in
        rw (entry_first sector i (omega arith), live_byte)
          (create_in_sector-EndsAt n (i + 32) m (k + 1) ends (omega arith) (ground arith)
            (omega arith))
  ]

  -- The new entry is not the last of its sector.
  create_entry-taken :
      (i j : ℕ)
      → allocate_cluster stack.new_file 0 fs ≡ ok (j, taken j fs)
      → j < 128
      → i + 32 < 512
      → fs.bpb.bytes_per_sector ≡ 512
      → disk_sector ≢ fs.bpb.reserved_sectors
      → (fs' : FileSystem) × (create_entry stack filename attributes dir num disk_sector sector i fs
          ≡ ok (pos j, fs'))
        × ((x : ℕ) → fs'.fat x ≡ (if x == j then end_of_chain else fs.fat x))
        × (ide_read disk_sector fs'
            ≡ with_entry sector i (filled_entry j attributes filename (entry_at sector i)))
        × ((k : ℕ)
            → k < 128
            → dword_at (ide_read fs.bpb.reserved_sectors fs') (k * 4)
              ≡ (if k == j then end_of_chain else fs.fat k) % 2 ^ 32)
        × (fs'.bpb ≡ fs.bpb)
        × (fs'.ebr ≡ fs.ebr)
  unfolding create_entry
  create_entry-taken i j got small room bytes apart =
      let fs1 = set_fat j end_of_chain (taken j fs) in
      let (disk', copied, saved, others) = copy_fat_to_disk_first stack.fat_sector j fs1 small in
      let entry = filled_entry j attributes filename (entry_at sector i) in
      (
        ide_write (with_entry sector i entry) disk_sector (record fs1 { disk = disk' }),
        rw
            (
              got,
              ==_ne j end_of_chain (omega arith),
              copied,
              ==_ne (i + 32) fs.bpb.bytes_per_sector (omega (arith, bytes)),
            )
            refl,
        λ x. ground arith,
        rw (==_self disk_sector) refl,
        λ k p.
            rw (==_ne fs.bpb.reserved_sectors disk_sector (λ e. apart (sym e)))
              (saved k p ∙ ground arith),
        refl,
        refl,
      )

module _ (stack : Stack) (filename : List ℕ) (attributes dir m : ℕ) (fs : FileSystem) where
  create_in_cluster-EndsAt :
      (n : ℕ)
      → 0 < n
      → fs.bpb.bytes_per_sector ≡ 512
      → m < 16
      → EndsAt (ide_read (get_disk_sector fs.bpb dir 0) fs) m
      → create_in_cluster stack filename attributes dir fs n 0
        ≡ some (
            let block = get_disk_sector fs.bpb dir 0 in
            create_entry stack filename attributes dir 0 block (ide_read block fs) (32 * m) fs)
  unfolding create_in_cluster
  create_in_cluster-EndsAt zero s bytes p ends = absurd (omega arith)
  create_in_cluster-EndsAt (suc n) s bytes p ends =
      let block = get_disk_sector fs.bpb dir 0 in
      rw
        (
          create_in_sector-EndsAt stack filename attributes dir 0 block (ide_read block fs) fs
              (entries_per_sector fs.bpb.bytes_per_sector) 0 m 0 ends (omega arith) (omega arith)
              (omega (arith, bytes)),
          create_in_cluster,
        )
        refl

  create_loop-EndsAt :
      (fuel : ℕ)
      → 0 < fs.bpb.sectors_per_cluster
      → fs.bpb.bytes_per_sector ≡ 512
      → dir < bad_cluster
      → m < 16
      → EndsAt (ide_read (get_disk_sector fs.bpb dir 0) fs) m
      → create_loop (suc fuel) stack filename attributes dir fs ≡ (
          let block = get_disk_sector fs.bpb dir 0 in
          create_entry stack filename attributes dir 0 block (ide_read block fs) (32 * m) fs)
  unfolding create_loop
  create_loop-EndsAt fuel s bytes small p ends =
      rw
        (
          lt→ltb dir bad_cluster small,
          create_in_cluster-EndsAt fs.bpb.sectors_per_cluster s bytes p ends,
          create_loop,
        )
        refl

-- Given sectors of 512 bytes, a directory that the search finds at a cluster of the table, the end
-- of the directory among the first 15 entries of its first sector, and a first free cluster below
-- 128 from the hint on: `createFile` returns that cluster, marks it alone in the table, in memory
-- and, modulo 2 ^ 32, in the first sector of the table on disk, and puts the entry, followed by a new end, in the place of
-- the old end.
pub create_file-taken :
    (fuel : ℕ) (stack : Stack) (path filename : List ℕ) (attributes dir m j : ℕ) (fs : FileSystem)
    → fs.bpb.bytes_per_sector ≡ 512
    → 0 < fs.bpb.sectors_per_cluster
    → search_file (suc fuel) path fs ≡ ok dir
    → dir < bad_cluster
    → get_disk_sector fs.bpb dir 0 ≢ fs.bpb.reserved_sectors
    → m < 15
    → EndsAt (ide_read (get_disk_sector fs.bpb dir 0) fs) m
    → FirstFree fs.fat (hint fs) fat_size j
    → j < 128
    → (fs' : FileSystem) × (create_file (suc fuel) stack path filename attributes fs
        ≡ ok (pos j, fs'))
      × ((x : ℕ) → fs'.fat x ≡ (if x == j then end_of_chain else fs.fat x))
      × (ide_read (get_disk_sector fs.bpb dir 0) fs' ≡ (
          let sector = ide_read (get_disk_sector fs.bpb dir 0) fs in
          with_entry sector
            (32 * m)
            (filled_entry j attributes filename (entry_at sector (32 * m)))))
      × ((k : ℕ)
          → k < 128
          → dword_at (ide_read fs.bpb.reserved_sectors fs') (k * 4)
            ≡ (if k == j then end_of_chain else fs.fat k) % 2 ^ 32)
      × (fs'.bpb ≡ fs.bpb)
unfolding create_file
create_file-taken fuel stack path filename attributes dir m j fs bytes sectors is small apart p ends
      free low =
    let block = get_disk_sector fs.bpb dir 0 in
    let (fs', e, fat, sector, table, same, _) =
      create_entry-taken stack filename attributes dir 0 block (ide_read block fs) fs (32 * m) j
        (allocate_cluster_first stack.new_file j fs free) low (omega arith) bytes apart in
    (
      fs',
      rw
          (
            is,
            create_loop-EndsAt stack filename attributes dir m fs fuel sectors bytes small
                (omega arith) ends,
          )
          e,
      fat,
      sector,
      table,
      same,
    )

-- Given sectors of 512 bytes, a directory that the search finds at a cluster of the table, the end
-- of the directory among the entries of its first sector, and no free cluster from the hint on:
-- `createFile` returns -1 and changes nothing.
pub create_file-full :
    (fuel : ℕ) (stack : Stack) (path filename : List ℕ) (attributes dir m : ℕ) (fs : FileSystem)
    → fs.bpb.bytes_per_sector ≡ 512
    → 0 < fs.bpb.sectors_per_cluster
    → search_file (suc fuel) path fs ≡ ok dir
    → dir < bad_cluster
    → m < 16
    → EndsAt (ide_read (get_disk_sector fs.bpb dir 0) fs) m
    → NoneFree fs.fat (hint fs) fat_size
    → create_file (suc fuel) stack path filename attributes fs ≡ ok (negsuc 0, fs)
unfolding create_file create_entry
create_file-full fuel stack path filename attributes dir m fs bytes sectors is small p ends full =
    rw
      (
        is,
        create_loop-EndsAt stack filename attributes dir m fs fuel sectors bytes small p ends,
        allocate_cluster_full stack.new_file fs full,
        create_entry,
      )
      refl
