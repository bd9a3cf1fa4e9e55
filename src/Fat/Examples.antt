-- ===== src/Fat/Examples.antt =====
-- A small disk, on which the results for file-system/fat32.c are applied.
mod Formats
mod Clusters
mod Files
use ze_os_filesystem.Base.{
  slice, ◌/◌, ℕ, ◌+◌, ◌*◌, ◌%◌, ◌^◌, ◌<◌, ◌≡◌, ◌≢◌, refl, ◌⊎◌, inl, inr, ◌↔◌, true, false, ◌==◌,
  ltb, ◌&&◌, if◌then◌else◌, arith, List, [], ◌∷◌, ◌++◌, map, get_or, get_elem?, length, has, Result,
  ok, fault, ◌>>=◌, some,
}
use ze_os_filesystem.Base.Int.{ℤ, pos, negsuc, neg}
use ze_os_filesystem.Fat.{
  Buffer, Disk, DirectoryEntry, Bpb, Ebr, FsInfo, FileSystem, fat_size, end_of_chain, not_found,
  ide_read, get_disk_sector,
}
use ze_os_filesystem.Fat.Boot.{dword_at}
use ze_os_filesystem.Fat.Path.{name_length, extract_filename, compare_filename}
use ze_os_filesystem.Fat.Path.Components.{join, pad, extract_filename-join, compare_filename_iff}
use ze_os_filesystem.Fat.Entry.{
  exactly, first_cluster, get_directory_entry, set_directory_entry, char_to_word, char_to_dword,
}
use ze_os_filesystem.Fat.Entry.Roundtrip.{
  set_directory_entry_frame, get_directory_entry-set, first_cluster-set_iff,
}
use ze_os_filesystem.Fat.Table.{copy_fat_to_disk, read_fat_from_disk}
use ze_os_filesystem.Fat.Table.Copy.{copy_fat_to_disk_first, copy_fat_to_disk_overflow}
use ze_os_filesystem.Fat.Table.Load.{read_fat_from_disk_lem}
use ze_os_filesystem.Fat.Cluster.{fat_at, hint, allocate_cluster, delete_fat_chain}
use ze_os_filesystem.Fat.Cluster.Chain.{Chain, last, link}
use ze_os_filesystem.Fat.Cluster.Delete.{delete_fat_chain-Chain}
use ze_os_filesystem.Fat.Cluster.Allocate.{
  FirstFree, NoneFree, taken, linked, allocate_cluster_new, allocate_cluster_extend,
  allocate_cluster_unlinked,
}
use ze_os_filesystem.Fat.Search.{
  recursive_search, next, return, unset_entry, entry_at, search_entry, search_sector,
  search_cluster, search_file,
}
use ze_os_filesystem.Fat.File.{walk_chain, write_file, read_file}
use ze_os_filesystem.Fat.File.Sectors.{byte_at, patched}
use ze_os_filesystem.Fat.File.Transfer.{
  Placed, address, write_file-patched, read_file-slice, read_file-write_file,
}
use ze_os_filesystem.Fat.Directory.{Stack, filled_entry, create_file, Deleting, delete_entry}
use ze_os_filesystem.Fat.Directory.Create.{EndsAt, with_entry, create_file-taken, create_file-full}
use ze_os_filesystem.Fat.Directory.Delete.{cleared, search_entry-cleared, delete_entry-Chain}
use ze_os_filesystem.Fat.Directory.Found.{PlainName, search_cluster-create_file}

-- `HELLO   TXT` and `NEW     TXT`.
abbrev pub hello : List ℕ
hello = b'H' ∷ b'E' ∷ b'L' ∷ b'L' ∷ b'O' ∷ b' ' ∷ b' ' ∷ b' ' ∷ b'T' ∷ b'X' ∷ b'T' ∷ []

abbrev pub new_name : List ℕ
new_name = b'N' ∷ b'E' ∷ b'W' ∷ b' ' ∷ b' ' ∷ b' ' ∷ b' ' ∷ b' ' ∷ b'T' ∷ b'X' ∷ b'T' ∷ []

-- The root directory: `HELLO.TXT` at cluster 3, then the end.
abbrev pub root_sector : Buffer
root_sector k = if k == 26 then 3 else get_or (hello ++ 0x20 ∷ []) k 0

abbrev pub small_disk : Disk
small_disk b = if b == 34 then root_sector else λ k. 0

-- The root at cluster 2, a file at clusters 3 and 4.
abbrev pub small_fat : ℕ → ℕ
small_fat c =
    if c == 2 then end_of_chain else if c == 3 then 4 else if c == 4 then end_of_chain else 0

abbrev pub small_fs : FileSystem
small_fs = record {
  bpb = record {
    bytes_per_sector = 512;
    sectors_per_cluster = 1;
    reserved_sectors = 32;
    fats = 1;
    root_dir_entries = 0;
    num_sectors = 2048;
    media_descriptor = 0xF8;
    sectors_per_track = 0;
    num_heads = 0;
    hidden_sectors = 0;
    num_sectors_lsc = 0;
  };
  ebr = record {
    sectors_per_fat = 16;
    flags = 0;
    fat_version = 0;
    root_cluster_num = 2;
    fs_info_sector_num = 1;
    bk_boot_sector_num = 6;
    drive_num = 0x80;
    signature = 0x29;
    system_id = [];
  };
  info = record {
    lead_signature = 0;
    other_signature = 0;
    last_known_cluster = not_found;
    where_clusters = 5;
    trail_signature = 0;
  };
  root_directory = unset_entry;
  fat = small_fat;
  disk = small_disk;
}

abbrev pub hello_entry : DirectoryEntry
hello_entry = record unset_entry { filename = hello; attributes = 0x20; first_cluster_lo = 3 }

abbrev pub far_entry : DirectoryEntry
far_entry = record unset_entry { filename = hello; attributes = 0x20; first_cluster_lo = 200 }

abbrev pub empty_sector : Buffer
empty_sector k = 0

pub hello-Chain : Chain small_fat 3 (3 ∷ 4 ∷ [])
hello-Chain = link (omega arith) refl (omega arith) refl (last (omega arith) (omega arith))
