-- ===== src/Fat/Search.antt =====
-- Path resolution: `searchFile` and `recursiveSearch` of file-system/fat32.c.
pub mod Entries
pub mod Lookup
pub mod Resolve
use ze_os_filesystem.Base.{
  ℕ, zero, suc, ◌+◌, ◌/◌, true, false, ltb, ◌==◌, if◌then◌else◌, none, some, List, [], get_or,
  Result, ok, out_of_fuel, ◌>>=◌,
}
use ze_os_filesystem.Fat.{
  Buffer, DirectoryEntry, FileSystem, fat_size, bad_cluster, not_found, get_disk_sector, ide_read,
}
use ze_os_filesystem.Fat.Path.{extract_filename, compare_filename}
use ze_os_filesystem.Fat.Entry.{get_directory_entry, first_cluster}
use ze_os_filesystem.Fat.Cluster.{fat_at}

-- `DirectoryEntry entry;`: the fields that `getDirectoryEntry` does not set are never read.
abbrev pub unset_entry : DirectoryEntry
unset_entry = record {
  filename = [];
  attributes = 0;
  wnt = 0;
  creation_secs = 0;
  creation_time = 0;
  creation_date = 0;
  last_access = 0;
  first_cluster_hi = 0;
  last_mod_time = 0;
  last_mod_date = 0;
  first_cluster_lo = 0;
  size = 0;
}

-- `for (i=0; i<bytesPerSector; i+=32)`
abbrev pub entries_per_sector : ℕ → ℕ
entries_per_sector bytes_per_sector = (bytes_per_sector + 31) / 32

abbrev pub entry_at : Buffer → ℕ → DirectoryEntry
entry_at sector i = get_directory_entry sector unset_entry i

-- How the body of the loop goes on: with the next entry, by a return of a cluster, or by the
-- recursive call in a subdirectory.
pub data Step : Type 0 where
  next : Step
  return descend : ℕ → Step

-- The `switch` on the first byte of the name.
unfoldable pub search_entry : List ℕ → DirectoryEntry → Step
search_entry filename entry =
    let first = get_or entry.filename 0 0 in
    if first == 0x00
    then return not_found
    else if first == 0x2E
    then next
    else if first == 0xE5
    then next
    else if entry.attributes == 0x0F
    then next
    else if entry.attributes == 0x10
    then (if compare_filename filename entry.filename then descend (first_cluster entry) else next)
    else if compare_filename filename entry.filename
    then return (first_cluster entry)
    else next

abbrev pub or_else : Step → Step → Step
or_else next rest = rest
or_else (return c) rest = return c
or_else (descend c) rest = descend c

-- `n` entries from the byte `i` on.
unfoldable pub search_sector : List ℕ → Buffer → ℕ → ℕ → Step
search_sector filename sector zero i = next
search_sector filename sector (suc n) i =
    or_else (search_entry filename (entry_at sector i)) (search_sector filename sector n (i + 32))

-- `n` sectors of a cluster from the one numbered `num` on.
unfoldable pub search_cluster : List ℕ → FileSystem → ℕ → ℕ → ℕ → Step
search_cluster filename fs cluster zero num = next
search_cluster filename fs cluster (suc n) num =
    let sector = ide_read (get_disk_sector fs.bpb cluster num) fs in
    or_else (search_sector filename sector (entries_per_sector fs.bpb.bytes_per_sector) 0)
      (search_cluster filename fs cluster n (num + 1))

-- A directory whose chain of clusters is a cycle is searched for ever: the fuel bounds the calls.
unfoldable pub recursive_search : ℕ → List ℕ → ℕ → ℕ → FileSystem → Result ℕ
recursive_search zero path cluster search_pos fs = out_of_fuel
recursive_search (suc fuel) path cluster search_pos fs = elim (extract_filename path search_pos) [
  | none ↦ ok cluster
  | some filename ↦ elim (search_cluster filename fs cluster fs.bpb.sectors_per_cluster 0) [
    | return c ↦ ok c
    | descend c ↦ recursive_search fuel path c (search_pos + 1) fs
    | next ↦ elim (ltb fat_size cluster) [
      | true ↦ ok not_found
      | false ↦ do
        link ← fat_at fs cluster
        elim (ltb bad_cluster link) [
          | true ↦ ok not_found
          | false ↦ recursive_search fuel path link search_pos fs
        ]
    ]
  ]
]

unfoldable pub search_file : ℕ → List ℕ → FileSystem → Result ℕ
search_file fuel path fs = do
  ret ← recursive_search fuel path fs.ebr.root_cluster_num 1 fs
  ok (if ret == not_found then 0 else ret)
