-- ===== src/Fat.antt =====
-- file-system/fat32.h and the globals of file-system/fat32.c: the on-disk structures, the file
-- system's state, and the disk seen as an array of blocks (disk-driver/ide.h).
pub mod Boot
pub mod Path
pub mod Entry
pub mod Table
pub mod Cluster
pub mod File
pub mod Search
pub mod Directory
mod Examples
use ze_os_filesystem.Base.{ℕ, ◌+◌, ◌*◌, ◌%◌, ◌^◌, ◌≡◌, ◌==◌, if◌then◌else◌, List, update}

pub record DirectoryEntry : Type 0 where
  pub filename : List ℕ
  pub attributes : ℕ
  pub wnt : ℕ
  pub creation_secs : ℕ
  pub creation_time : ℕ
  pub creation_date : ℕ
  pub last_access : ℕ
  pub first_cluster_hi : ℕ
  pub last_mod_time : ℕ
  pub last_mod_date : ℕ
  pub first_cluster_lo : ℕ
  pub size : ℕ

pub record Bpb : Type 0 where
  pub bytes_per_sector : ℕ
  pub sectors_per_cluster : ℕ
  pub reserved_sectors : ℕ
  pub fats : ℕ
  pub root_dir_entries : ℕ
  pub num_sectors : ℕ
  pub media_descriptor : ℕ
  pub sectors_per_track : ℕ
  pub num_heads : ℕ
  pub hidden_sectors : ℕ
  pub num_sectors_lsc : ℕ

pub record Ebr : Type 0 where
  pub sectors_per_fat : ℕ
  pub flags : ℕ
  pub fat_version : ℕ
  pub root_cluster_num : ℕ
  pub fs_info_sector_num : ℕ
  pub bk_boot_sector_num : ℕ
  pub drive_num : ℕ
  pub signature : ℕ
  pub system_id : List ℕ

pub record FsInfo : Type 0 where
  pub lead_signature : ℕ
  pub other_signature : ℕ
  pub last_known_cluster : ℕ
  pub where_clusters : ℕ
  pub trail_signature : ℕ

-- A buffer of bytes, as a function of the index; a disk, as a function of the block number.
abbrev pub Buffer : Type 0
Buffer = ℕ → ℕ

abbrev pub Disk : Type 0
Disk = ℕ → Buffer

-- The globals of fat32.c, and the disk that they describe.
pub record FileSystem : Type 0 where
  pub bpb : Bpb
  pub ebr : Ebr
  pub info : FsInfo
  pub root_directory : DirectoryEntry
  pub fat : ℕ → ℕ
  pub disk : Disk

abbrev pub fat_size : ℕ
fat_size = 2048

-- The values of the table that the code names: a free cluster, a bad one, the end of a chain, and
-- the "no such entry" of the search.
abbrev pub free_cluster : ℕ
free_cluster = 0

abbrev pub bad_cluster : ℕ
bad_cluster = 0x0FFF_FFF7

abbrev pub end_of_chain : ℕ
end_of_chain = 0x0FFF_FFFF

abbrev pub not_found : ℕ
not_found = 0xFFFF_FFFF

-- `idewrite` and `ideread`, by the contract of ide.h.
abbrev pub ide_write : Buffer → ℕ → FileSystem → FileSystem
ide_write b block fs = record fs { disk = update fs.disk block b }

abbrev pub ide_read : ℕ → FileSystem → Buffer
ide_read block fs = fs.disk block

abbrev pub set_fat : ℕ → ℕ → FileSystem → FileSystem
set_fat i v fs = record fs { fat = update fs.fat i v }

-- The disk sector of a cluster, in the arithmetic of `unsigned`.
unfoldable pub get_disk_sector : Bpb → ℕ → ℕ → ℕ
get_disk_sector b cluster offset =
    (cluster * b.sectors_per_cluster + b.reserved_sectors + offset) % 2 ^ 32
