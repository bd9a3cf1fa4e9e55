-- ===== src/Fat/Table.antt =====
-- The allocation table on disk: `copyFATtoDisk` and `readFATfromDisk` of file-system/fat32.c.
pub mod Copy
pub mod Load
use ze_os_filesystem.Base.{
  ℕ, zero, suc, ◌+◌, ◌-◌, ◌*◌, ◌/◌, ◌%◌, ltb, Result, ok, ◌>>=◌, ◌>>◌, require,
}
use ze_os_filesystem.Fat.{Buffer, FileSystem, fat_size, ide_read, ide_write, set_fat}
use ze_os_filesystem.Fat.Boot.{dword_at, get_fat32_attributes, initialize_root_dir}
use ze_os_filesystem.Fat.Entry.{write_bytes, dword_bytes}

-- `n` rounds of the loop from entry `i` on. The store is at `i * 4 - start`, in a buffer of 512
-- bytes.
unfoldable pub fill_sector : ℕ → ℕ → ℕ → (ℕ → ℕ) → Buffer → Result Buffer
fill_sector zero i start fat b = ok b
fill_sector (suc n) i start fat b = do
  require (ltb i fat_size)
  require (ltb (i * 4 + 3 - start) 512)
  fill_sector n (i + 1) start fat (write_bytes b (i * 4 - start) (dword_bytes (fat i)))

-- `b` is what the stack holds where the buffer is put.
unfoldable pub copy_fat_to_disk : Buffer → ℕ → FileSystem → Result FileSystem
copy_fat_to_disk b cluster fs = do
  let start = cluster - cluster % 128
  sector ← fill_sector 128 start start fs.fat b
  ok (ide_write sector (fs.bpb.reserved_sectors + cluster * 4 / 512) fs)

-- `n` rounds of the inner loop, from the byte `j` on, of sector `i` of the table.
unfoldable pub load_entries : ℕ → ℕ → ℕ → Buffer → FileSystem → Result FileSystem
load_entries zero i j b fs = ok fs
load_entries (suc n) i j b fs = do
  let k = i * 128 + j / 4
  require (ltb k fat_size)
  load_entries n i (j + 4) b (set_fat k (dword_at b j) fs)

-- `for (j=0; j<128; j+=4)` has 32 rounds.
unfoldable pub load_sectors : ℕ → ℕ → FileSystem → Result FileSystem
load_sectors zero i fs = ok fs
load_sectors (suc n) i fs = do
  fs ← load_entries 32 i 0 (ide_read (fs.bpb.reserved_sectors + i) fs) fs
  load_sectors n (i + 1) fs

unfoldable pub read_fat_from_disk : FileSystem → Result FileSystem
read_fat_from_disk fs = load_sectors fs.ebr.sectors_per_fat 0 fs

-- `initializeFAT`
unfoldable pub initialize_fat : FileSystem → Result FileSystem
initialize_fat fs = read_fat_from_disk (initialize_root_dir ((get_fat32_attributes fs).0))
