-- ===== src/Fat/Cluster.antt =====
-- Cluster chains: `allocateCluster` and `deleteFATchain` of file-system/fat32.c.
pub mod Chain
pub mod Allocate
pub mod Delete
use ze_os_filesystem.Base.{
  ℕ, zero, suc, ◌+◌, ◌-◌, ltb, not, ◌==◌, if◌then◌else◌, Option, none, some, Result, ok,
  out_of_fuel, ◌>>=◌, ◌>>◌, require,
}
use ze_os_filesystem.Fat.{
  FsInfo, FileSystem, fat_size, free_cluster, bad_cluster, end_of_chain, not_found, set_fat,
}

-- A read of `FAT[cluster]`.
unfoldable pub fat_at : FileSystem → ℕ → Result ℕ
fat_at fs cluster = do require (ltb cluster fat_size); ok (fs.fat cluster)

-- `while (FAT[cluster] < 0x0FFFFFF7) cluster = FAT[cluster];`
unfoldable pub last_cluster : ℕ → FileSystem → ℕ → Result ℕ
last_cluster zero fs cluster = out_of_fuel
last_cluster (suc fuel) fs cluster = do
  next ← fat_at fs cluster
  if ltb next bad_cluster then last_cluster fuel fs next else ok cluster

-- `for (; i<FAT_SIZE; i++)`, with `n` rounds left: the first free entry from `i` on.
unfoldable pub find_free : (ℕ → ℕ) → ℕ → ℕ → Option ℕ
find_free fat zero i = none
find_free fat (suc n) i =
    let rest = find_free fat n (i + 1) in if fat i == free_cluster then some i else rest

-- Where the search for a free cluster begins.
abbrev pub hint : FileSystem → ℕ
hint fs = if fs.info.where_clusters == not_found then 2 else fs.info.where_clusters

unfoldable pub search_free : FileSystem → Option ℕ
search_free fs = find_free fs.fat (fat_size - hint fs) (hint fs)

-- The assignments in the loop, once an entry is found.
take_cluster : Option ℕ → ℕ → FileSystem → FileSystem
take_cluster tail i fs =
    let linked : FileSystem = elim tail [ none ↦ fs | some cluster ↦ set_fat cluster i fs ] in
    let marked = set_fat i end_of_chain linked in
    record marked { info = record (fs.info) { where_clusters = i + 1 } }

-- `new_file` is assigned only where `starting_cluster` is 0: else it is what the stack holds. The
-- walk ends within `fat_size` rounds or never.
unfoldable pub allocate_cluster : ℕ → ℕ → FileSystem → Result (ℕ × FileSystem)
unfolding take_cluster
allocate_cluster stack starting_cluster fs = do
  let new_file = if starting_cluster == 0 then 1 else stack
  tail ←
      (if new_file == 0
        then (do last ← last_cluster fat_size fs starting_cluster; ok (some last))
        else ok none)
  elim (search_free fs) [
    | none ↦ ok (end_of_chain, fs)
    | some free ↦ ok (free, take_cluster tail free fs)
  ]

-- The recursion follows a chain; it ends within `fat_size` calls or never.
unfoldable pub delete_chain : ℕ → ℕ → FileSystem → Result FileSystem
delete_chain zero cluster fs = out_of_fuel
delete_chain (suc fuel) cluster fs = do
  next ← fat_at fs cluster
  fs ← (if ltb next 0x0FFF_FFF6 then delete_chain fuel next fs else ok fs)
  ok (set_fat cluster 0 fs)

unfoldable pub delete_fat_chain : ℕ → FileSystem → Result FileSystem
delete_fat_chain cluster fs = delete_chain fat_size cluster fs
