-- ===== src/Fat/Directory.antt =====
-- Changes to directories: `createFile` and `deleteFile` of file-system/fat32.c.
pub mod Delete
pub mod Create
pub mod Found
use ze_os_filesystem.Base.{
  ℕ, zero, suc, ◌+◌, ◌/◌, ◌%◌, ◌^◌, Bool, true, false, ◌||◌, ltb, leb, ◌==◌, if◌then◌else◌, Option,
  none, some, List, [], map, replicate, update, Result, ok, out_of_fuel, ◌>>=◌, get_or,
}
use ze_os_filesystem.Base.Int.{ℤ, pos, negsuc, neg}
use ze_os_filesystem.Fat.{
  Buffer, DirectoryEntry, FileSystem, bad_cluster, end_of_chain, get_disk_sector, ide_read,
  ide_write, set_fat,
}
use ze_os_filesystem.Fat.Path.{name_length, compare_filename}
use ze_os_filesystem.Fat.Entry.{first_cluster, set_directory_entry, write_bytes, exactly}
use ze_os_filesystem.Fat.Table.{copy_fat_to_disk}
use ze_os_filesystem.Fat.Cluster.{fat_at, allocate_cluster, delete_fat_chain}
use ze_os_filesystem.Fat.Search.{entries_per_sector, entry_at, search_file}

-- What the stack holds where locals are read before they are set: the variable `newFile` of
-- `allocateCluster` and the buffer of `copyFATtoDisk`.
pub record Stack : Type 0 where
  pub new_file : ℕ
  pub fat_sector : Buffer

-- A byte of a name: below a blank as a signed `char` it becomes one.
abbrev pub name_byte : ℕ → ℕ
name_byte c = if ltb c 0x20 || leb 128 c then 0x20 else c

unfoldable pub filled_entry : ℕ → ℕ → List ℕ → DirectoryEntry → DirectoryEntry
filled_entry new_cluster attributes filename entry = record entry {
  filename = map name_byte (exactly name_length filename);
  first_cluster_lo = new_cluster % 2 ^ 16;
  first_cluster_hi = new_cluster / 2 ^ 16 % 2 ^ 16;
  size = 0;
  attributes = attributes;
}

-- The next sector, which is to begin with the end of the directory.
end_in_next_sector : Stack → ℕ → ℕ → ℕ → FileSystem → Result FileSystem
end_in_next_sector stack dir_cluster num disk_sector fs = do
  (next, fs) ←
      (if num + 1 == fs.bpb.sectors_per_cluster
        then (do
          (cluster, fs) ← allocate_cluster stack.new_file dir_cluster fs
          ok (get_disk_sector fs.bpb cluster 0, fs))
        else ok ((disk_sector + 1) % 2 ^ 32, fs))
  ok (ide_write (update (ide_read next fs) 0 0x00) next fs)

-- The entry at byte `i` of a sector is the end of the directory: it takes the new file.
unfoldable pub create_entry :
    Stack → List ℕ → ℕ → ℕ → ℕ → ℕ → Buffer → ℕ → FileSystem → Result (ℤ × FileSystem)
unfolding end_in_next_sector
create_entry stack filename attributes dir_cluster num disk_sector sector i fs = do
  (new_cluster, fs) ← allocate_cluster stack.new_file 0 fs
  if new_cluster == end_of_chain then ok (negsuc 0, fs) else do
    fs ← copy_fat_to_disk stack.fat_sector new_cluster (set_fat new_cluster end_of_chain fs)
    let entry = filled_entry new_cluster attributes filename (entry_at sector i)
    let written = set_directory_entry sector entry i
    fs ←
        (if i + 32 == fs.bpb.bytes_per_sector
          then end_in_next_sector stack dir_cluster num disk_sector
              (ide_write written disk_sector fs)
          else ok (ide_write (update written (i + 32) 0x00) disk_sector fs))
    ok (pos new_cluster, fs)

module _ (stack : Stack) (filename : List ℕ) (attributes dir_cluster : ℕ) (fs : FileSystem) where
  -- `none`: no end of the directory among `n` entries from byte `i` on.
  create_in_sector : ℕ → ℕ → Buffer → ℕ → ℕ → Option (Result (ℤ × FileSystem))
  create_in_sector num disk_sector sector zero i = none
  create_in_sector num disk_sector sector (suc n) i =
      let rest = create_in_sector num disk_sector sector n (i + 32) in
      if get_or ((entry_at sector i).filename) 0 0 == 0x00
      then some (create_entry stack filename attributes dir_cluster num disk_sector sector i fs)
      else rest

  create_in_cluster : ℕ → ℕ → Option (Result (ℤ × FileSystem))
  unfolding create_in_sector
  create_in_cluster zero num = none
  create_in_cluster (suc n) num =
      let disk_sector = get_disk_sector fs.bpb dir_cluster num in
      let rest = create_in_cluster n (num + 1) in
      let rounds = entries_per_sector fs.bpb.bytes_per_sector in
      elim (create_in_sector num disk_sector (ide_read disk_sector fs) rounds 0) [
        | none ↦ rest
        | some r ↦ some r
      ]

-- `while (dirCluster < 0x0FFFFFF7)`. The state changes only in the round that returns.
unfoldable pub create_loop : ℕ → Stack → List ℕ → ℕ → ℕ → FileSystem → Result (ℤ × FileSystem)
unfolding create_in_cluster
create_loop zero stack filename attributes dir_cluster fs = out_of_fuel
create_loop (suc fuel) stack filename attributes dir_cluster fs =
    elim (ltb dir_cluster bad_cluster) [
      | false ↦ ok (negsuc 0, fs)
      | true ↦
          elim (create_in_cluster stack filename attributes dir_cluster fs
            fs.bpb.sectors_per_cluster 0) [
              | some r ↦ r
              | none ↦ do
                link ← fat_at fs dir_cluster
                create_loop fuel stack filename attributes link fs
            ]
    ]

unfoldable pub create_file : ℕ → Stack → List ℕ → List ℕ → ℕ → FileSystem → Result (ℤ × FileSystem)
create_file fuel stack path filename attributes fs = do
  dir_cluster ← search_file fuel path fs
  create_loop fuel stack filename attributes dir_cluster fs

-- The state of the loops of `deleteFile`: whether it has returned, the sector and the globals.
pub record Deleting : Type 0 where
  pub returned : Bool
  pub sector : Buffer
  pub fs : FileSystem

-- An entry of the name is freed, flagged and cleared, and the sector written.
unfoldable pub delete_entry : Stack → DirectoryEntry → ℕ → ℕ → Buffer → FileSystem → Result Deleting
delete_entry stack entry disk_sector i sector fs = do
  let cluster = first_cluster entry
  fs ← delete_fat_chain cluster fs
  fs ← copy_fat_to_disk stack.fat_sector cluster fs
  let cleared = write_bytes (update sector i 0xE5) (i + 1) (replicate 31 0x00)
  ok (record { returned = false; sector = cleared; fs = ide_write cleared disk_sector fs })

-- `if (compareFilename(filename, entry.filename))`
unfoldable pub delete_match : Stack → List ℕ → ℕ → ℕ → Buffer → FileSystem → Result Deleting
delete_match stack filename disk_sector i sector fs =
    let entry = entry_at sector i in
    if compare_filename filename entry.filename
    then delete_entry stack entry disk_sector i sector fs
    else ok (record { returned = false; sector = sector; fs = fs })

unfoldable pub delete_in_sector : Stack → List ℕ → ℕ → ℕ → ℕ → Buffer → FileSystem → Result Deleting
delete_in_sector stack filename disk_sector zero i sector fs =
    ok (record { returned = false; sector = sector; fs = fs })
delete_in_sector stack filename disk_sector (suc n) i sector fs =
    elim (get_or ((entry_at sector i).filename) 0 0 == 0x00) [
      | true ↦ ok (record { returned = true; sector = sector; fs = fs })
      | false ↦ do
        d ← delete_match stack filename disk_sector i sector fs
        delete_in_sector stack filename disk_sector n (i + 32) d.sector d.fs
    ]

-- Whether the function has returned, and the globals.
unfoldable pub delete_in_cluster :
    Stack → List ℕ → ℕ → ℕ → ℕ → FileSystem → Result (Bool × FileSystem)
delete_in_cluster stack filename dir_cluster zero num fs = ok (false, fs)
delete_in_cluster stack filename dir_cluster (suc n) num fs = do
  let disk_sector = get_disk_sector fs.bpb dir_cluster num
  d ←
      delete_in_sector stack filename disk_sector (entries_per_sector fs.bpb.bytes_per_sector) 0
        (ide_read disk_sector fs) fs
  elim d.returned [
    | true ↦ ok (true, d.fs)
    | false ↦ delete_in_cluster stack filename dir_cluster n (num + 1) d.fs
  ]

-- `while (dirCluster < 0x0FFFFFF7)`
unfoldable pub delete_loop : ℕ → Stack → List ℕ → ℕ → FileSystem → Result (ℤ × FileSystem)
delete_loop zero stack filename dir_cluster fs = out_of_fuel
delete_loop (suc fuel) stack filename dir_cluster fs = elim (ltb dir_cluster bad_cluster) [
  | false ↦ ok (pos 0, fs)
  | true ↦ do
    (returned, fs) ← delete_in_cluster stack filename dir_cluster fs.bpb.sectors_per_cluster 0 fs
    elim returned [
      | true ↦ ok (neg 2, fs)
      | false ↦ do link ← fat_at fs dir_cluster; delete_loop fuel stack filename link fs
    ]
]

unfoldable pub delete_file : ℕ → Stack → List ℕ → List ℕ → FileSystem → Result (ℤ × FileSystem)
delete_file fuel stack path filename fs = do
  dir_cluster ← search_file fuel path fs
  delete_loop fuel stack filename dir_cluster fs
