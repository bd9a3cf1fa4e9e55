-- ===== src/Fat/Search/Entries.antt =====
-- What a cluster of a directory holds for a name, told from the list of its entries.
use ze_os_filesystem.Base.{ℕ, zero, suc, ◌+◌, ◌≡◌, ◌≢◌, List, [], ◌∷◌, ◌++◌, get_or, All}
use ze_os_filesystem.Fat.{Buffer, DirectoryEntry, FileSystem, get_disk_sector, ide_read}
use ze_os_filesystem.Fat.Path.{name_length}
use ze_os_filesystem.Fat.Path.Components.{pad}
use ze_os_filesystem.Fat.Search.{entry_at, entries_per_sector}

unfoldable pub sector_entries : Buffer → ℕ → ℕ → List DirectoryEntry
sector_entries sector zero i = []
sector_entries sector (suc n) i = entry_at sector i ∷ sector_entries sector n (i + 32)

-- The entries of `n` sectors of a cluster from the one numbered `num` on, in order.
unfoldable pub cluster_entries : FileSystem → ℕ → ℕ → ℕ → List DirectoryEntry
cluster_entries fs cluster zero num = []
cluster_entries fs cluster (suc n) num =
    sector_entries (ide_read (get_disk_sector fs.bpb cluster num) fs)
      (entries_per_sector fs.bpb.bytes_per_sector) 0
    ++ cluster_entries fs cluster n (num + 1)

-- The entries of a cluster.
abbrev pub entries : FileSystem → ℕ → List DirectoryEntry
entries fs cluster = cluster_entries fs cluster fs.bpb.sectors_per_cluster 0

abbrev pub first_byte : DirectoryEntry → ℕ
first_byte e = get_or e.filename 0 0

-- The entry that ends a directory.
abbrev pub IsEnd : DirectoryEntry → Type 0
IsEnd e = first_byte e ≡ 0

-- An entry in use that has the name `n`, filled with blanks to 11 bytes.
pub record HasName (n : List ℕ) (e : DirectoryEntry) : Type 0 where
  pub live : first_byte e ≢ 0
  pub not_dots : first_byte e ≢ 0x2E
  pub not_deleted : first_byte e ≢ 0xE5
  pub not_long : e.attributes ≢ 0x0F
  pub same : e.filename ≡ pad name_length n

abbrev pub IsDirectory : DirectoryEntry → Type 0
IsDirectory e = e.attributes ≡ 0x10

-- Another entry: not the end, and without that name.
abbrev pub IsOther : List ℕ → DirectoryEntry → Type 0
IsOther n e = (first_byte e ≢ 0) × ¬ HasName n e

-- `e` stands in the list behind other entries only.
pub record FirstOf (n : List ℕ) (es : List DirectoryEntry) (e : DirectoryEntry) : Type 0 where
  pub before : List DirectoryEntry
  pub after : List DirectoryEntry
  pub split : es ≡ before ++ e ∷ after
  pub others : All (IsOther n) before
