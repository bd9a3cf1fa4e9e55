-- ===== src/Fat/Table/Load.antt =====
-- What `readFATfromDisk` puts into the table in memory.
use ze_os_filesystem.Base.{
  ℕ, zero, suc, ◌+◌, ◌*◌, ◌/◌, ◌%◌, ◌≤◌, ◌<◌, ◌≡◌, refl, ltb, leb, ◌==◌, ◌&&◌, if◌then◌else◌, arith,
  ok, lt→ltb,
}
use ze_os_filesystem.Fat.{Buffer, FileSystem, fat_size, ide_read, set_fat}
use ze_os_filesystem.Fat.Boot.{dword_at}
use ze_os_filesystem.Fat.Table.{load_entries, load_sectors, read_fat_from_disk}

load_entries_lem :
    (n i m : ℕ) (b : Buffer) (fs : FileSystem)
    → m + n ≤ 128
    → i < 16
    → (fat' : ℕ → ℕ) × (load_entries n i (m * 4) b fs ≡ ok (record fs { fat = fat' }))
      × ((c : ℕ)
          → fat' c ≡ (
              if (c / 128 == i) && leb m (c % 128) && ltb (c % 128) (m + n)
              then dword_at b (c % 128 * 4)
              else fs.fat c))
unfolding load_entries
load_entries_lem zero i m b fs h small = (fs.fat, refl, λ c. ground arith)
load_entries_lem (suc n) i m b fs h small =
    let k = i * 128 + m * 4 / 4 in
    let (fat', e, at) =
      load_entries_lem n i (m + 1) b (set_fat k (dword_at b (m * 4)) fs) (omega arith) small in
    let j : m * 4 + 4 ≡ (m + 1) * 4 = omega arith in
    (fat', rw (lt→ltb k fat_size (omega arith), j) e, λ c. ground (arith, at c))

load_sectors_lem :
    (n i : ℕ) (fs : FileSystem)
    → i + n ≤ 16
    → (fat' : ℕ → ℕ) × (load_sectors n i fs ≡ ok (record fs { fat = fat' }))
      × ((c : ℕ)
          → fat' c ≡ (
              if leb i (c / 128) && ltb (c / 128) (i + n) && ltb (c % 128) 32
              then dword_at (ide_read (fs.bpb.reserved_sectors + c / 128) fs) (c % 128 * 4)
              else fs.fat c))
unfolding load_sectors
load_sectors_lem zero i fs h = (fs.fat, refl, λ c. ground arith)
load_sectors_lem (suc n) i fs h =
    let sector = ide_read (fs.bpb.reserved_sectors + i) fs in
    let (f, e, at) = load_entries_lem 32 i 0 sector fs (omega arith) (omega arith) in
    let (g, e', at') = load_sectors_lem n (i + 1) (record fs { fat = f }) (omega arith) in
    (g, rw e e', λ c. ground (arith, at c, at' c))

-- Given a table of at most 16 sectors, `readFATfromDisk` succeeds and loads the first 32 entries of
-- each sector of the table; every other entry in memory keeps its value.
pub read_fat_from_disk_lem :
    (fs : FileSystem)
    → fs.ebr.sectors_per_fat ≤ 16
    → (fat' : ℕ → ℕ) × (read_fat_from_disk fs ≡ ok (record fs { fat = fat' }))
      × ((c : ℕ)
          → fat' c ≡ (
              if ltb (c / 128) fs.ebr.sectors_per_fat && ltb (c % 128) 32
              then dword_at (ide_read (fs.bpb.reserved_sectors + c / 128) fs) (c % 128 * 4)
              else fs.fat c))
unfolding read_fat_from_disk
read_fat_from_disk_lem fs h =
    let (f, e, at) = load_sectors_lem fs.ebr.sectors_per_fat 0 fs (omega arith) in
    (f, e, λ c. ground (arith, at c))
