-- ===== src/Fat/Boot.antt =====
-- Start-up of the file system: `getFAT32attributes` and `initializeRootDir` of
-- file-system/fat32.c. What they print is not modelled, but for the fact of the warning.
use ze_os_filesystem.Base.{ℕ, ◌+◌, ◌*◌, ◌/◌, ◌%◌, ◌^◌, Bool, not, ◌&&◌, ◌==◌, ◌∷◌, replicate, slice}
use ze_os_filesystem.Fat.{Buffer, Bpb, Ebr, FsInfo, FileSystem, ide_read}

-- `*(Word*)(p + i)` and `*(DWord*)(p + i)` on a little-endian machine.
abbrev pub word_at : Buffer → ℕ → ℕ
word_at b i = b i + 256 * b (i + 1)

abbrev pub dword_at : Buffer → ℕ → ℕ
dword_at b i = word_at b i + 65536 * word_at b (i + 2)

read_bpb : Buffer → Bpb
read_bpb b = record {
  bytes_per_sector = word_at b 0x0B;
  sectors_per_cluster = b 0x0D;
  reserved_sectors = word_at b 0x0E;
  fats = b 0x10;
  root_dir_entries = word_at b 0x11;
  num_sectors = word_at b 0x13;
  media_descriptor = b 0x15;
  sectors_per_track = word_at b 0x16;
  num_heads = word_at b 0x18;
  hidden_sectors = dword_at b 0x1A;
  num_sectors_lsc = dword_at b 0x20;
}

read_ebr : Buffer → Ebr
read_ebr b = record {
  sectors_per_fat = dword_at b 0x24;
  flags = word_at b 0x28;
  fat_version = word_at b 0x2A;
  root_cluster_num = dword_at b 0x2C;
  fs_info_sector_num = word_at b 0x30;
  bk_boot_sector_num = word_at b 0x32;
  drive_num = b 0x40;
  signature = b 0x42;
  system_id = slice b 0x52 8;
}

read_fs_info : Buffer → FsInfo
read_fs_info b = record {
  lead_signature = dword_at b 0x00;
  other_signature = dword_at b 0x1E4;
  last_known_cluster = dword_at b 0x1E8;
  where_clusters = dword_at b 0x1EC;
  trail_signature = dword_at b 0x1FC;
}

-- The state after the two sectors are read, and whether the code warns of an unsupported layout.
unfoldable pub get_fat32_attributes : FileSystem → FileSystem × Bool
unfolding read_bpb read_ebr read_fs_info
get_fat32_attributes fs =
    let b = read_bpb (ide_read 0 fs) in
    (
      record fs { bpb = b; ebr = read_ebr (ide_read 0 fs); info = read_fs_info (ide_read 1 fs) },
      not (b.bytes_per_sector == 512) && not (b.sectors_per_cluster == 8),
    )

unfoldable pub initialize_root_dir : FileSystem → FileSystem
initialize_root_dir fs = record fs {
  root_directory = record (fs.root_directory) {
    filename = b'/' ∷ replicate 10 b' ';
    attributes = 0x10;
    first_cluster_hi = (fs.ebr.root_cluster_num / 2 ^ 16) % 2 ^ 16;
    first_cluster_lo = fs.ebr.root_cluster_num % 2 ^ 16;
  };
}
