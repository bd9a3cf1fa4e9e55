-- ===== src/Fat/File.antt =====
-- File contents: `writeFile` and `readFile` of file-system/fat32.c. The number of bytes to copy is
-- the length of a list.
pub mod Sectors
pub mod Transfer
use ze_os_filesystem.Base.Int.{ℤ, pos, negsuc}
use ze_os_filesystem.Base.{
  ◌≡◌, refl, ◌-◌, ◌||◌, ℕ, zero, suc, ◌+◌, ◌*◌, ◌/◌, ◌%◌, ◌^◌, ltb, not, ◌==◌, if◌then◌else◌,
  Option, none, some, List, [], ◌∷◌, length, update, Result, ok, ◌>>=◌, ◌>>◌, require,
}
use ze_os_filesystem.Fat.{
  Buffer, Bpb, FileSystem, bad_cluster, get_disk_sector, ide_read, ide_write,
}
use ze_os_filesystem.Fat.Cluster.{fat_at, allocate_cluster}

-- The local variables of the two functions. `clusterSectorNum` is `sector_num - below`: it is below 0
-- at first where the transfer starts before the file.
pub record Cursor : Type 0 where
  pub cluster : ℕ
  pub sector_num : ℕ
  pub below : ℕ
  pub disk_sector : ℕ
  pub sector_it : ℕ
  pub buffer : Buffer

-- `while (clusterChainNum > 0)`
unfoldable pub walk_chain : ℕ → FileSystem → ℕ → Result ℕ
walk_chain zero fs cluster = ok cluster
walk_chain (suc n) fs cluster = do next ← fat_at fs cluster; walk_chain n fs next

-- Up to and with the first read of a sector. A division by zero is undefined.
unfoldable pub start_transfer : Bpb → ℕ → ℕ → FileSystem → Result Cursor
start_transfer b starting_cluster start_byte fs = do
  let per_cluster = b.bytes_per_sector * b.sectors_per_cluster
  require (not (per_cluster == 0))
  cluster ← walk_chain (start_byte / per_cluster) fs starting_cluster
  let num = start_byte % per_cluster / b.bytes_per_sector
  let sector = get_disk_sector b cluster num
  ok (record {
    cluster = cluster;
    sector_num = num;
    below = 0;
    disk_sector = sector;
    sector_it = start_byte % b.bytes_per_sector;
    buffer = ide_read sector fs;
  })

-- The next sector of the cluster, as both functions take it.
unfoldable pub next_sector : Cursor → FileSystem → Cursor
next_sector c fs =
    let sector = (c.disk_sector + 1) % 2 ^ 32 in
    record c {
      sector_num = c.sector_num + 1;
      disk_sector = sector;
      sector_it = 0;
      buffer = ide_read sector fs;
    }

-- The end of a sector in `writeFile`. In the next cluster `clusterSectorNum` keeps its value.
unfoldable pub advance_write : ℕ → Bpb → ℕ → Cursor → FileSystem → Result (Cursor × FileSystem)
advance_write stack b starting_cluster c fs =
    let saved = ide_write c.buffer c.disk_sector fs in
    if ltb c.sector_num (b.sectors_per_cluster + c.below)
    then ok (next_sector c saved, saved)
    else do
      next ← fat_at saved c.cluster
      (cluster, fs) ←
          (if ltb bad_cluster next
            then allocate_cluster stack starting_cluster saved
            else ok (next, saved))
      let sector = get_disk_sector b cluster 0
      ok (
        record c {
          cluster = cluster;
          disk_sector = sector;
          sector_it = 0;
          buffer = ide_read sector fs;
        },
        fs,
      )

unfoldable pub put_byte : ℕ → Cursor → Cursor
put_byte x c = record c { buffer = update c.buffer c.sector_it x; sector_it = c.sector_it + 1 }

-- `while (remainingBytes > 0)`. What the stack holds in a call of `allocateCluster` may depend on
-- the call, so on the number of bytes left.
unfoldable pub write_loop :
    (ℕ → ℕ) → Bpb → ℕ → List ℕ → Cursor → FileSystem → Result (Cursor × FileSystem)
write_loop stack b starting_cluster [] c fs = ok (c, fs)
write_loop stack b starting_cluster (x ∷ xs) c fs = do
  (c, fs) ←
      (if c.sector_it == b.bytes_per_sector
        then advance_write (stack (length xs)) b starting_cluster c fs
        else ok (c, fs))
  write_loop stack b starting_cluster xs (put_byte x c) fs

-- A transfer that starts `m` bytes before the file, up to and with the first read of a sector: no
-- cluster is skipped, and the place in the sector is `m % bytesPerSector` below 0.
unfoldable pub start_before : Bpb → ℕ → ℕ → FileSystem → Result Cursor
start_before b starting_cluster m fs = do
  let per_cluster = b.bytes_per_sector * b.sectors_per_cluster
  require (not (per_cluster == 0))
  let num = m % per_cluster / b.bytes_per_sector
  let sector = get_disk_sector b starting_cluster (2 ^ 32 - num)
  ok (record {
    cluster = starting_cluster;
    sector_num = 0;
    below = num;
    disk_sector = sector;
    sector_it = 0;
    buffer = ide_read sector fs;
  })

-- The result of `writeFile` is 0.
unfoldable pub write_file : (ℕ → ℕ) → ℕ → List ℕ → ℕ → FileSystem → Result FileSystem
write_file stack starting_cluster bytes start_byte fs = do
  c ← start_transfer fs.bpb starting_cluster start_byte fs
  (c, fs) ← write_loop stack fs.bpb starting_cluster bytes c fs
  ok (ide_write c.buffer c.disk_sector fs)

-- The end of a sector in `readFile`; `none` is the `break`.
unfoldable pub advance_read : Bpb → Cursor → FileSystem → Result (Option Cursor)
advance_read b c fs =
    if ltb c.sector_num (b.sectors_per_cluster + c.below) then ok (some (next_sector c fs)) else do
      cluster ← fat_at fs c.cluster
      let sector = get_disk_sector b cluster 0
      let first : Cursor = record {
        cluster = cluster;
        sector_num = 0;
        below = 0;
        disk_sector = sector;
        sector_it = 0;
        buffer = ide_read sector fs;
      }
      if ltb bad_cluster cluster then ok none else ok (some first)

-- The bytes that the loop stores, in order. It stores fewer than asked for where the chain ends.
unfoldable pub read_loop : Bpb → ℕ → Cursor → FileSystem → Result (List ℕ)
read_loop b zero c fs = ok []
read_loop b (suc n) c fs = do
  at ← (if c.sector_it == b.bytes_per_sector then advance_read b c fs else ok (some c))
  elim at [
    | none ↦ ok []
    | some c ↦ do
      rest ← read_loop b n (record c { sector_it = c.sector_it + 1 }) fs
      ok (c.buffer c.sector_it ∷ rest)
  ]

unfoldable pub read_file : ℕ → ℕ → ℕ → FileSystem → Result (List ℕ)
read_file starting_cluster size start_byte fs = do
  c ← start_transfer fs.bpb starting_cluster start_byte fs
  read_loop fs.bpb size c fs

-- The functions at an `int`. The first byte that goes to or comes from a place below 0 of the local
-- buffer is a fault.
unfoldable pub write_file_at : (ℕ → ℕ) → ℕ → List ℕ → ℤ → FileSystem → Result FileSystem
write_file_at stack starting_cluster bytes (pos start_byte) fs =
    write_file stack starting_cluster bytes start_byte fs
write_file_at stack starting_cluster bytes (negsuc n) fs = do
  c ← start_before fs.bpb starting_cluster (n + 1) fs
  require ((length bytes == 0) || ((n + 1) % fs.bpb.bytes_per_sector == 0))
  (c, fs) ← write_loop stack fs.bpb starting_cluster bytes c fs
  ok (ide_write c.buffer c.disk_sector fs)

unfoldable pub read_file_at : ℕ → ℕ → ℤ → FileSystem → Result (List ℕ)
read_file_at starting_cluster size (pos start_byte) fs =
    read_file starting_cluster size start_byte fs
read_file_at starting_cluster size (negsuc n) fs = do
  c ← start_before fs.bpb starting_cluster (n + 1) fs
  require ((size == 0) || ((n + 1) % fs.bpb.bytes_per_sector == 0))
  read_loop fs.bpb size c fs

pub write_file_at-pos :
    (stack : ℕ → ℕ) (c : ℕ) (bytes : List ℕ) (n : ℕ) (fs : FileSystem)
    → write_file_at stack c bytes (pos n) fs ≡ write_file stack c bytes n fs
unfolding write_file_at
write_file_at-pos stack c bytes n fs = refl

pub read_file_at-pos :
    (c size n : ℕ) (fs : FileSystem) → read_file_at c size (pos n) fs ≡ read_file c size n fs
unfolding read_file_at
read_file_at-pos c size n fs = refl
