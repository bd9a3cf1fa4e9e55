-- ===== src/Fat/Directory/Delete.antt =====
-- What `deleteFile` does to an entry, and what it returns.
use ze_os_filesystem.Base.{
  ℕ, zero, suc, ◌+◌, ◌-◌, ◌*◌, ◌/◌, ◌%◌, ◌≤◌, ◌<◌, ◌≡◌, refl, ◌⊎◌, inl, inr, Bool, true, false,
  ◌==◌, if◌then◌else◌, arith, List, has, get_or, replicate, update, ok, >>=-eq-ok, ok-injective,
  ==_self, ==_ne, ◌^◌, ◌≢◌, Bool-cases, ◌∙◌, ap, sym, lt→ltb,
}
use ze_os_filesystem.Base.Int.{ℤ, neg}
use ze_os_filesystem.Fat.{
  Buffer, DirectoryEntry, FileSystem, bad_cluster, get_disk_sector, ide_read, ide_write,
}
use ze_os_filesystem.Fat.Path.{compare_filename}
use ze_os_filesystem.Fat.Boot.{dword_at}
use ze_os_filesystem.Fat.Entry.{first_cluster, get_directory_entry, write_bytes}
use ze_os_filesystem.Fat.Entry.Roundtrip.{write_bytes_outside}
use ze_os_filesystem.Fat.Table.{copy_fat_to_disk}
use ze_os_filesystem.Fat.Table.Copy.{copy_fat_to_disk_first}
use ze_os_filesystem.Fat.Cluster.{delete_fat_chain}
use ze_os_filesystem.Fat.Cluster.Chain.{Chain}
use ze_os_filesystem.Fat.Cluster.Delete.{delete_fat_chain-Chain}
use ze_os_filesystem.Fat.Search.{next, search_entry, entry_at, search_file}
use ze_os_filesystem.Fat.Directory.{
  Stack, Deleting, delete_entry, delete_match, delete_in_sector, delete_in_cluster, delete_loop,
  delete_file,
}

-- A sector whose entry at byte `i` is flagged and cleared.
abbrev pub cleared : Buffer → ℕ → Buffer
cleared sector i = write_bytes (update sector i 0xE5) (i + 1) (replicate 31 0x00)

cleared_outside :
    (sector : Buffer) (i j : ℕ) → (j < i) ⊎ (i + 32 ≤ j) → cleared sector i j ≡ sector j
cleared_outside sector i j h =
    write_bytes_outside (replicate 31 0x00) (update sector i 0xE5) (i + 1) j (omega arith)
    ∙ ground arith

cleared_first : (sector : Buffer) (i : ℕ) → cleared sector i i ≡ 0xE5
cleared_first sector i =
    write_bytes_outside (replicate 31 0x00) (update sector i 0xE5) (i + 1) i (omega arith)
    ∙ ground arith

pub entry_first :
    (sector : Buffer) (i : ℕ) → i % 32 ≡ 0 → get_or ((entry_at sector i).filename) 0 0 ≡ sector i
unfolding get_directory_entry
entry_first sector i h = ground arith

-- After an entry at a multiple of 32 is flagged and cleared, the search passes it over, whatever
-- name it looks for.
pub search_entry-cleared :
    (filename : List ℕ) (sector : Buffer) (i : ℕ)
    → i % 32 ≡ 0
    → search_entry filename (entry_at (cleared sector i) i) ≡ next
unfolding search_entry
search_entry-cleared filename sector i h =
    rw (entry_first (cleared sector i) i h, cleared_first sector i) refl

delete_entry-sector :
    (stack : Stack) (entry : DirectoryEntry) (disk_sector i : ℕ) (sector : Buffer) (fs : FileSystem)
    {d : Deleting}
    → delete_entry stack entry disk_sector i sector fs ≡ ok d
    → d.sector ≡ cleared sector i
unfolding delete_entry
delete_entry-sector stack entry disk_sector i sector fs h =
    let (fs1, e1, h1) = >>=-eq-ok (delete_fat_chain (first_cluster entry) fs) _ h in
    let (fs2, e2, h2) =
      >>=-eq-ok (copy_fat_to_disk stack.fat_sector (first_cluster entry) fs1) _ h1 in
    sym (ap (λ (d : Deleting). d.sector) (ok-injective h2))

-- Given an entry whose first cluster is one of the first 128 and starts a chain: the code frees the
-- clusters of the chain and no others in memory, writes the sector with the entry flagged and
-- cleared, and, unless that is the sector of the table, has the first 128 entries of the new table
-- on disk, modulo 2 ^ 32.
pub delete_entry-Chain :
    (stack : Stack) (entry : DirectoryEntry) (disk_sector i : ℕ) (sector : Buffer) (fs : FileSystem)
    {cs : List ℕ}
    → Chain fs.fat (first_cluster entry) cs
    → first_cluster entry < 128
    → (fs' : FileSystem) × (delete_entry stack entry disk_sector i sector fs
        ≡ ok (record { returned = false; sector = cleared sector i; fs = fs' }))
      × ((x : ℕ) → fs'.fat x ≡ (if has x cs then 0 else fs.fat x))
      × (ide_read disk_sector fs' ≡ cleared sector i)
      × (disk_sector ≢ fs.bpb.reserved_sectors
          → (k : ℕ) → k < 128
          → dword_at (ide_read fs.bpb.reserved_sectors fs') (k * 4)
            ≡ (if has k cs then 0 else fs.fat k) % 2 ^ 32)
unfolding delete_entry
delete_entry-Chain stack entry disk_sector i sector fs ch small =
    let (fat', freed, at) = delete_fat_chain-Chain fs ch in
    let (disk', copied, saved, others) =
      copy_fat_to_disk_first stack.fat_sector (first_cluster entry) (record fs { fat = fat' })
        small in
    (
      ide_write (cleared sector i) disk_sector (record fs { fat = fat'; disk = disk' }),
      rw (freed, copied) refl,
      at,
      rw (==_self disk_sector) refl,
      λ other k p.
          rw (==_ne fs.bpb.reserved_sectors disk_sector (λ e. other (sym e)))
            (saved k p ∙ ap (λ (n : ℕ). n % 2 ^ 32) (at k)),
    )

delete_match-sector :
    (stack : Stack) (filename : List ℕ) (disk_sector i j : ℕ) (sector : Buffer) (fs : FileSystem)
    {d : Deleting}
    → i + 32 ≤ j
    → delete_match stack filename disk_sector i sector fs ≡ ok d
    → d.sector j ≡ sector j
unfolding delete_match
delete_match-sector stack filename disk_sector i j sector fs p h =
    elim (Bool-cases (compare_filename filename ((entry_at sector i).filename))) [
      | inl hit ↦
          ap (λ (s : Buffer). s j)
            (delete_entry-sector stack (entry_at sector i) disk_sector i sector fs (rw hit at h))
          ∙ cleared_outside sector i j (inr p)
      | inr miss ↦ sym (ap (λ (d : Deleting). d.sector j) (ok-injective (rw miss at h)))
    ]

not_both : (sector : Buffer) (i j : ℕ) → i ≡ j → sector j ≡ 0 → (sector i == 0) ≡ false → ⊥
not_both sector i j e end live = ground arith

-- An end of the directory among the entries to come makes the loop return.
delete_in_sector-returned :
    (stack : Stack) (filename : List ℕ) (disk_sector n i m : ℕ) (sector : Buffer) (fs : FileSystem)
    {d : Deleting}
    → i % 32 ≡ 0
    → m < n
    → sector (i + 32 * m) ≡ 0
    → delete_in_sector stack filename disk_sector n i sector fs ≡ ok d
    → d.returned ≡ true
unfolding delete_in_sector
delete_in_sector-returned stack filename disk_sector zero i m sector fs a p end h =
    absurd (omega arith)
delete_in_sector-returned stack filename disk_sector (suc n) i m sector fs a p end h =
    elim (Bool-cases (get_or ((entry_at sector i).filename) 0 0 == 0x00)) [
      | inl last ↦
          sym (ap (λ (d : Deleting). d.returned) (ok-injective (rw (last, delete_in_sector) at h)))
      | inr live ↦
          let (d1, e1, h1) =
            >>=-eq-ok (delete_match stack filename disk_sector i sector fs) _
              (rw (live, delete_in_sector) at h) in
          let positive : 0 < m =
            end_is_later sector i m end (rw (entry_first sector i a) at live) in
          let place : i + 32 + 32 * (m - 1) ≡ i + 32 * m = omega arith in
          let kept : d1.sector (i + 32 + 32 * (m - 1)) ≡ 0 = rw place (
            delete_match-sector stack filename disk_sector i (i + 32 * m) sector fs (omega arith) e1
            ∙ end) in
          delete_in_sector-returned stack filename disk_sector n (i + 32) (m - 1) d1.sector d1.fs
            (omega arith) (omega arith) kept h1
    ]
  where
    end_is_later :
        (sector : Buffer) (i m : ℕ) → sector (i + 32 * m) ≡ 0 → (sector i == 0) ≡ false → 0 < m
    end_is_later sector i zero end live =
        absurd (not_both sector i (i + 32 * 0) (omega arith) end live)
    end_is_later sector i (suc m) end live = omega arith

delete_in_cluster-returned :
    (stack : Stack) (filename : List ℕ) (dir n m : ℕ) (fs fs' : FileSystem) (b : Bool)
    → 0 < n
    → fs.bpb.bytes_per_sector ≡ 512
    → m < 16
    → ide_read (get_disk_sector fs.bpb dir 0) fs (32 * m) ≡ 0
    → delete_in_cluster stack filename dir n 0 fs ≡ ok (b, fs')
    → b ≡ true
unfolding delete_in_cluster
delete_in_cluster-returned stack filename dir zero m fs fs' b s bytes p end h = absurd (omega arith)
delete_in_cluster-returned stack filename dir (suc n) m fs fs' b s bytes p end h =
    let rounds : m < (fs.bpb.bytes_per_sector + 31) / 32 = omega (arith, bytes) in
    let start : 32 * m ≡ 0 + 32 * m = omega arith in
    let (d, e, h1) = >>=-eq-ok {A = Deleting} _ _ h in
    let returned =
      delete_in_sector-returned stack filename _ _ 0 m _ fs refl rounds (rw start at end) e in
    sym (ap (λ (q : Bool × FileSystem). q.0) (ok-injective (rw returned at h1)))

delete_loop-missing :
    (fuel : ℕ) (stack : Stack) (filename : List ℕ) (fs fs' : FileSystem) (dir m : ℕ) (r : ℤ)
    → fs.bpb.bytes_per_sector ≡ 512
    → 0 < fs.bpb.sectors_per_cluster
    → dir < bad_cluster
    → m < 16
    → ide_read (get_disk_sector fs.bpb dir 0) fs (32 * m) ≡ 0
    → delete_loop fuel stack filename dir fs ≡ ok (r, fs')
    → r ≡ neg 2
unfolding delete_loop
delete_loop-missing zero stack filename fs fs' dir m r bytes sectors small p end h = cc
delete_loop-missing (suc fuel) stack filename fs fs' dir m r bytes sectors small p end h =
    let ((b, fs1), e, h1) =
      >>=-eq-ok (delete_in_cluster stack filename dir fs.bpb.sectors_per_cluster 0 fs) _
        (rw (lt→ltb dir bad_cluster small, delete_loop) at h) in
    let returned =
      delete_in_cluster-returned stack filename dir _ m fs fs1 b sectors bytes p end e in
    sym (ap (λ (q : ℤ × FileSystem). q.0) (ok-injective (rw (returned, delete_loop) at h1)))

-- Given sectors of 512 bytes, a directory that the search finds at a cluster of the table, and an
-- end of the directory among the entries of its first sector: whenever `deleteFile` ends, its result
-- is -2, "no such file", also when it has deleted the file.
pub delete_file-missing :
    (fuel : ℕ) (stack : Stack) (path filename : List ℕ) (fs fs' : FileSystem) (dir m : ℕ) (r : ℤ)
    → fs.bpb.bytes_per_sector ≡ 512
    → 0 < fs.bpb.sectors_per_cluster
    → search_file fuel path fs ≡ ok dir
    → dir < bad_cluster
    → m < 16
    → ide_read (get_disk_sector fs.bpb dir 0) fs (32 * m) ≡ 0
    → delete_file fuel stack path filename fs ≡ ok (r, fs')
    → r ≡ neg 2
unfolding delete_file
delete_file-missing fuel stack path filename fs fs' dir m r bytes sectors is small p end h =
    let (dir', e, h1) = >>=-eq-ok (search_file fuel path fs) _ h in
    let same : dir' ≡ dir = ok-injective (sym e ∙ is) in
    delete_loop-missing fuel stack filename fs fs' dir m r bytes sectors small p end (rw same at h1)
