-- ===== src/Fat/Examples/Files.antt =====
-- The small disk: search, transfers and directories.
use ze_os_filesystem.Base.{
  slice, ℕ, ◌*◌, ◌%◌, ◌^◌, ◌<◌, ◌≡◌, ◌≢◌, refl, ap, ◌∙◌, false, if◌then◌else◌, arith, List, [], ◌∷◌,
  has, ok, ◌>>=◌,
}
use ze_os_filesystem.Base.Int.{pos, negsuc}
use ze_os_filesystem.Fat.{
  Disk, DirectoryEntry, FileSystem, fat_size, end_of_chain, ide_read, get_disk_sector,
}
use ze_os_filesystem.Fat.Boot.{dword_at}
use ze_os_filesystem.Fat.Path.{extract_filename, compare_filename}
use ze_os_filesystem.Fat.Path.Components.{join, pad}
use ze_os_filesystem.Fat.Entry.{exactly, first_cluster, get_directory_entry}
use ze_os_filesystem.Fat.Cluster.{fat_at, hint}
use ze_os_filesystem.Fat.Cluster.Allocate.{FirstFree}
use ze_os_filesystem.Fat.Search.{
  recursive_search, next, return, search_entry, search_sector, search_cluster, search_file,
  entry_at,
}
use ze_os_filesystem.Fat.Search.Resolve.{
  visits, Resolves, cluster, through_file, to_file, behind_file, answered, search_file-Resolves,
}
use ze_os_filesystem.Fat.Search.Entries.{
  entries, sector_entries, cluster_entries, FirstOf, HasName, IsDirectory,
}
use ze_os_filesystem.Fat.File.{walk_chain, write_file, read_file}
use ze_os_filesystem.Fat.File.Sectors.{byte_at, patched}
use ze_os_filesystem.Fat.File.Transfer.{
  Placed, address, write_file-patched, read_file-slice, read_file-write_file,
}
use ze_os_filesystem.Fat.Directory.{Stack, create_file, delete_entry}
use ze_os_filesystem.Fat.Directory.Create.{EndsAt, create_file-full}
use ze_os_filesystem.Fat.Directory.Delete.{cleared, delete_entry-Chain}
use ze_os_filesystem.Fat.Directory.Found.{PlainName, search_cluster-create_file}
use ze_os_filesystem.Fat.Examples.{
  hello, new_name, root_sector, small_disk, small_fat, small_fs, hello_entry, empty_sector,
  hello-Chain,
}

abbrev hello_file : DirectoryEntry
hello_file = entry_at root_sector 0

hello_first : FirstOf hello (entries small_fs 2) hello_file
unfolding sector_entries cluster_entries get_disk_sector
hello_first = record {
  before = [];
  after = sector_entries root_sector 15 32;
  split = refl;
  others = tt;
}

hello_named : HasName hello hello_file
unfolding get_directory_entry pad
hello_named = record {
  live = omega arith;
  not_dots = omega arith;
  not_deleted = omega arith;
  not_long = omega arith;
  same = refl;
}

hello_plain : ¬ IsDirectory hello_file
unfolding get_directory_entry
hello_plain = λ e. absurd (omega (arith, e))

hello_cluster : first_cluster hello_file ≡ 3
unfolding get_directory_entry first_cluster
hello_cluster = refl

abbrev hello_resolves : Resolves small_fs 2 (hello ∷ []) (cluster (first_cluster hello_file))
hello_resolves = to_file hello_first hello_named hello_plain

-- The path goes on behind the file.
hello_behind : answered (through_file (first_cluster hello_file)) ≡ 3
unfolding answered
hello_behind = rw hello_cluster refl

search_file-behind : search_file 4 (join (hello ∷ new_name ∷ [])) small_fs ≡ ok 3
unfolding visits
search_file-behind =
    search_file-Resolves 4 (refl, (refl, tt)) (behind_file hello_first hello_named hello_plain)
      (omega arith)
    ∙ ap ok hello_behind

-- A transfer of three bytes behind the first sector of a file at clusters 3 and 4.
hello-Placed : Placed small_fs.bpb small_fs 3 513 3 4
unfolding walk_chain fat_at
hello-Placed = record {
  sector_size = refl;
  has_sectors = omega arith;
  walk = refl;
  room = omega arith;
  fits = omega arith;
}

write_file-patched_example :
    (disk' : Disk) × (write_file (λ k. 0) 3 (1 ∷ 2 ∷ 3 ∷ []) 513 small_fs
      ≡ ok (record small_fs { disk = disk' }))
    × ((k : ℕ)
        → byte_at disk' k ≡ patched small_disk (address small_fs.bpb 4 513) (1 ∷ 2 ∷ 3 ∷ []) k)
write_file-patched_example =
    write_file-patched (λ k. 0) small_fs 3 513 4 (1 ∷ 2 ∷ 3 ∷ []) hello-Placed

read_file-slice_example :
    read_file 3 3 513 small_fs ≡ ok (slice (byte_at small_disk) (address small_fs.bpb 4 513) 3)
read_file-slice_example = read_file-slice small_fs 3 513 4 3 hello-Placed

read_file-write_file_example :
    (write_file (λ k. 0) 3 (1 ∷ 2 ∷ 3 ∷ []) 513 small_fs >>= read_file 3 3 513)
    ≡ ok (1 ∷ 2 ∷ 3 ∷ [])
read_file-write_file_example =
    read_file-write_file (λ k. 0) small_fs 3 513 4 (1 ∷ 2 ∷ 3 ∷ []) hello-Placed

abbrev small_stack : Stack
small_stack = record { new_file = 7; fat_sector = empty_sector }

abbrev root_path : List ℕ
root_path = b'/' ∷ []

first_free : FirstFree small_fat (hint small_fs) fat_size 5
first_free = record {
  from = omega arith;
  within = omega arith;
  free = refl;
  first = λ k p q. absurd (omega arith);
}

root_ends : EndsAt root_sector 1
root_ends = record { end = refl; live = λ k p. ground arith }

root_found : search_file 4 [] small_fs ≡ ok 2
unfolding search_file recursive_search extract_filename
root_found = refl

new_name-PlainName : PlainName new_name
unfolding exactly
new_name-PlainName = record {
  len = refl;
  kept = refl;
  no_dot = omega arith;
  printable = omega arith;
  ascii = omega arith;
}

no_new_name : search_sector new_name root_sector 1 0 ≡ next
unfolding search_sector search_entry compare_filename get_directory_entry
no_new_name = refl

search_cluster-create_file_example :
    (fs' : FileSystem) × (create_file 4 small_stack [] new_name 0x20 small_fs ≡ ok (pos 5, fs'))
    × (search_cluster new_name fs' 2 fs'.bpb.sectors_per_cluster 0 ≡ return 5)
unfolding get_disk_sector
search_cluster-create_file_example =
    search_cluster-create_file 3 small_stack [] new_name 0x20 2 1 5 small_fs refl (omega arith)
      root_found (omega arith) (omega arith) (omega arith) root_ends first_free (omega arith)
      new_name-PlainName (omega arith) (omega arith) no_new_name

-- The same disk with every cluster taken.
abbrev full_fs : FileSystem
full_fs = record small_fs { fat = λ c. end_of_chain }

full_found : search_file 4 [] full_fs ≡ ok 2
unfolding search_file recursive_search extract_filename
full_found = refl

create_file-full_example :
    create_file 4 small_stack [] new_name 0x20 full_fs ≡ ok (negsuc 0, full_fs)
unfolding get_disk_sector
create_file-full_example =
    create_file-full 3 small_stack [] new_name 0x20 2 1 full_fs refl (omega arith) full_found
      (omega arith) (omega arith) root_ends (λ k p q. omega arith)

delete_entry-Chain_example :
    (fs' : FileSystem) × (delete_entry small_stack hello_entry 34 0 root_sector small_fs
      ≡ ok (record { returned = false; sector = cleared root_sector 0; fs = fs' }))
    × ((x : ℕ) → fs'.fat x ≡ (if has x (3 ∷ 4 ∷ []) then 0 else small_fat x))
    × (ide_read 34 fs' ≡ cleared root_sector 0)
    × (◌≢◌ {A = ℕ} 34 32
        → (k : ℕ) → k < 128
        → dword_at (ide_read 32 fs') (k * 4)
          ≡ (if has k (3 ∷ 4 ∷ []) then 0 else small_fat k) % 2 ^ 32)
unfolding first_cluster
delete_entry-Chain_example =
    delete_entry-Chain small_stack hello_entry 34 0 root_sector small_fs hello-Chain (omega arith)
