-- ===== src/Fat/Directory/Found.antt =====
-- A created file is found by the search.
use ze_os_filesystem.Base.{
  subst, length-map, ℕ, zero, suc, ◌+◌, ◌-◌, ◌*◌, ◌%◌, ◌≤◌, ◌<◌, ◌≡◌, ◌≢◌, refl, inl, true, ◌==◌,
  arith, List, length, get_or, ok, ◌∙◌, ap, sym, ==_ne, map,
}
use ze_os_filesystem.Base.Int.{pos}
use ze_os_filesystem.Fat.{
  Bpb, Buffer, DirectoryEntry, FileSystem, fat_size, bad_cluster, get_disk_sector, ide_read,
}
use ze_os_filesystem.Fat.Path.{name_length}
use ze_os_filesystem.Fat.Path.Components.{compare_filename_iff}
use ze_os_filesystem.Fat.Entry.{get_directory_entry, set_directory_entry, first_cluster, exactly}
use ze_os_filesystem.Fat.Entry.Roundtrip.{
  length-exactly, get_directory_entry-set, first_cluster-set_iff, set_directory_entry_frame,
  slice_agree,
}
use ze_os_filesystem.Fat.Cluster.{hint}
use ze_os_filesystem.Fat.Cluster.Allocate.{FirstFree}
use ze_os_filesystem.Fat.Search.{
  Step, next, return, descend, unset_entry, or_else, search_entry, search_sector, search_cluster,
  entries_per_sector, entry_at, search_file,
}
use ze_os_filesystem.Fat.Directory.{Stack, filled_entry, name_byte, create_file}
use ze_os_filesystem.Fat.Directory.Create.{EndsAt, with_entry, create_file-taken}

-- Two sectors that agree on the 32 bytes of an entry hold the same entry there.
entry_at_agree :
    (s s' : Buffer) (i : ℕ)
    → i % 32 ≡ 0
    → ((j : ℕ) → i ≤ j → j < i + 32 → s j ≡ s' j)
    → entry_at s i ≡ entry_at s' i
unfolding get_directory_entry
entry_at_agree s s' i aligned h =
    let o : (i % 32 == 0) ≡ true = ground arith in
    rw
      (
        o,
        slice_agree s s' i name_length (λ j p q. h j p (omega arith)),
        h (0x0B + i) (omega arith) (omega arith),
        h (0x14 + i) (omega arith) (omega arith),
        h (0x1A + i) (omega arith) (omega arith),
        h (0x1C + i) (omega arith) (omega arith),
      )
      refl

search_sector-agree :
    (name : List ℕ) (s s' : Buffer) (n i : ℕ)
    → i % 32 ≡ 0
    → ((j : ℕ) → i ≤ j → j < i + 32 * n → s j ≡ s' j)
    → search_sector name s n i ≡ search_sector name s' n i
unfolding search_sector
search_sector-agree name s s' zero i aligned h = refl
search_sector-agree name s s' (suc n) i aligned h =
    rw
      (
        entry_at_agree s s' i aligned (λ j p q. h j p (omega arith)),
        search_sector-agree name s s' n (i + 32) (omega arith)
            (λ j p q. h j (omega arith) (omega arith)),
      )
      refl

or_else-next : (a b : Step) → or_else a b ≡ next → (a ≡ next) × (b ≡ next)
or_else-next next b h = (refl, h)
or_else-next (return c) b h = cc
or_else-next (descend c) b h = cc

-- Where the first `m` entries are passed over, the search goes on behind them.
search_sector-skip :
    (name : List ℕ) (s : Buffer) (m n i : ℕ)
    → search_sector name s m i ≡ next
    → search_sector name s (m + n) i ≡ search_sector name s n (i + 32 * m)
unfolding search_sector
search_sector-skip name s zero n i h =
    let count : 0 + n ≡ n = omega arith in
    let place : i + 32 * 0 ≡ i = omega arith in rw (count, place) refl
search_sector-skip name s (suc m) n i h =
    let count : suc m + n ≡ suc (m + n) = omega arith in
    let place : i + 32 * suc m ≡ i + 32 + 32 * m = omega arith in
    let (first, rest) =
      or_else-next (search_entry name (entry_at s i)) (search_sector name s m (i + 32)) h in
    rw (count, place, first) (search_sector-skip name s m n (i + 32) rest)

-- An entry of the name that is no end, no dot, no deleted entry, no long name and no directory.
search_entry-file :
    (name : List ℕ) (e : DirectoryEntry)
    → e.filename ≡ name
    → length name ≡ name_length
    → get_or name 0 0 ≢ 0x00
    → get_or name 0 0 ≢ 0x2E
    → get_or name 0 0 ≢ 0xE5
    → e.attributes ≢ 0x0F
    → e.attributes ≢ 0x10
    → search_entry name e ≡ return (first_cluster e)
unfolding search_entry
search_entry-file name e same len a b c d f =
    let first = get_or name 0 0 in
    let byte : get_or e.filename 0 0 ≡ first = ap (λ (n : List ℕ). get_or n 0 0) same in
    let size : length e.filename ≡ name_length = ap length same ∙ len in
    let hit = (compare_filename_iff name e.filename len size).1 (sym same) in
    rw
      (
        byte,
        ==_ne first 0x00 a,
        ==_ne first 0x2E b,
        ==_ne first 0xE5 c,
        ==_ne e.attributes 0x0F d,
        ==_ne e.attributes 0x10 f,
        hit,
      )
      refl

-- The entry that `createFile` writes, as the search reads it.
created : Buffer → ℕ → ℕ → ℕ → List ℕ → Buffer
created s i j attributes filename =
    with_entry s i (filled_entry j attributes filename (entry_at s i))

length-filled :
    (j attributes : ℕ) (filename : List ℕ) (e : DirectoryEntry)
    → length ((filled_entry j attributes filename e).filename) ≡ name_length
unfolding filled_entry
length-filled j attributes filename e =
    length-map name_byte (exactly name_length filename) ∙ length-exactly name_length filename

module _ (s : Buffer) (i j attributes : ℕ) (filename : List ℕ) (aligned : i % 32 ≡ 0)
    (low : j < 128) where
  entry_at-created :
      ((entry_at (created s i j attributes filename) i).filename
        ≡ map name_byte (exactly name_length filename))
      × ((entry_at (created s i j attributes filename) i).attributes ≡ attributes)
      × (first_cluster (entry_at (created s i j attributes filename) i) ≡ j)
  unfolding created filled_entry
  entry_at-created =
      let entry = filled_entry j attributes filename (entry_at s i) in
      let written = set_directory_entry s entry i in
      let same : entry_at (with_entry s i entry) i ≡ entry_at written i =
        entry_at_agree (with_entry s i entry) written i aligned
          (λ k p q. rw (==_ne k (i + 32) (omega arith)) refl) in
      let size = length-filled j attributes filename (entry_at s i) in
      let (name, kind, _, _, _) = get_directory_entry-set s entry unset_entry i aligned size in
      let cluster =
        (first_cluster-set_iff s entry unset_entry i j aligned size (omega arith) refl refl).1
          low in
      (
        ap (λ (e : DirectoryEntry). e.filename) same ∙ name,
        ap (λ (e : DirectoryEntry). e.attributes) same ∙ kind,
        ap first_cluster same ∙ cluster,
      )

  created_before : (k : ℕ) → k < i → s k ≡ created s i j attributes filename k
  unfolding created
  created_before k h = rw (==_ne k (i + 32) (omega arith)) (
      sym (
        set_directory_entry_frame s (filled_entry j attributes filename (entry_at s i)) i k
          (inl h)))

-- A name that `createFile` takes as it is: 11 bytes that are no control characters and none above
-- 127, of which the first is no dot.
pub record PlainName (name : List ℕ) : Type 0 where
  pub len : length name ≡ name_length
  pub kept : map name_byte (exactly name_length name) ≡ name
  pub no_dot : get_or name 0 0 ≢ 0x2E
  pub printable : 0x20 ≤ get_or name 0 0
  pub ascii : get_or name 0 0 < 128

entries-16 : (b : Bpb) → b.bytes_per_sector ≡ 512 → entries_per_sector b.bytes_per_sector ≡ 16
entries-16 b h = rw h refl

search_sector-first :
    (name : List ℕ) (s : Buffer) (n i j : ℕ)
    → search_entry name (entry_at s i) ≡ return j
    → search_sector name s (suc n) i ≡ return j
unfolding search_sector
search_sector-first name s n i j e = rw e refl

search_sector-created :
    (s : Buffer) (m j attributes : ℕ) (filename : List ℕ)
    → j < 128
    → m < 16
    → PlainName filename
    → attributes ≢ 0x0F
    → attributes ≢ 0x10
    → search_sector filename s m 0 ≡ next
    → search_sector filename (created s (32 * m) j attributes filename) 16 0 ≡ return j
search_sector-created s m j attributes filename low p plain a b before =
    let s' = created s (32 * m) j attributes filename in
    let (name, kind, cluster) =
      entry_at-created s (32 * m) j attributes filename (omega arith) low in
    let hit : search_entry filename (entry_at s' (32 * m)) ≡ return j =
      search_entry-file filename (entry_at s' (32 * m)) (name ∙ plain.kept) plain.len
        (omega (arith, plain.printable)) plain.no_dot (omega (arith, plain.ascii))
        (λ e. a (sym kind ∙ e)) (λ e. b (sym kind ∙ e))
      ∙ ap return cluster in
    let skipped =
      sym (
        search_sector-agree filename s s' m 0 refl (λ k q r.
          created_before s (32 * m) j attributes filename (omega arith) low k (omega arith)))
      ∙ before in
    let rounds : 16 ≡ m + suc (15 - m) = omega arith in
    let place : 0 + 32 * m ≡ 32 * m = omega arith in
    rw rounds (
      search_sector-skip filename s' m (suc (15 - m)) 0 skipped
      ∙ rw place (search_sector-first filename s' (15 - m) (32 * m) j hit))

search_cluster-first :
    (name : List ℕ) (fs : FileSystem) (dir n j : ℕ)
    → 0 < n
    → search_sector name
        (ide_read (get_disk_sector fs.bpb dir 0) fs)
        (entries_per_sector fs.bpb.bytes_per_sector)
        0
      ≡ return j
    → search_cluster name fs dir n 0 ≡ return j
unfolding search_cluster
search_cluster-first name fs dir zero j s h = absurd (omega arith)
search_cluster-first name fs dir (suc n) j s h = rw h refl

-- Given sectors of 512 bytes, a directory that the search finds at a cluster of the table other than
-- that of the table's sector, the end of the directory at entry `m` of the first 15 of its first
-- sector, a first free cluster `j` below 128 from the hint on, a plain name that none of the entries
-- before the end has, and the attributes of a file: `createFile` returns `j`, and then a search for
-- the name in the directory returns `j`.
pub search_cluster-create_file :
    (fuel : ℕ) (stack : Stack) (path filename : List ℕ) (attributes dir m j : ℕ) (fs : FileSystem)
    → fs.bpb.bytes_per_sector ≡ 512
    → 0 < fs.bpb.sectors_per_cluster
    → search_file (suc fuel) path fs ≡ ok dir
    → dir < bad_cluster
    → get_disk_sector fs.bpb dir 0 ≢ fs.bpb.reserved_sectors
    → m < 15
    → EndsAt (ide_read (get_disk_sector fs.bpb dir 0) fs) m
    → FirstFree fs.fat (hint fs) fat_size j
    → j < 128
    → PlainName filename
    → attributes ≢ 0x0F
    → attributes ≢ 0x10
    → search_sector filename (ide_read (get_disk_sector fs.bpb dir 0) fs) m 0 ≡ next
    → (fs' : FileSystem) × (create_file (suc fuel) stack path filename attributes fs
        ≡ ok (pos j, fs'))
      × (search_cluster filename fs' dir fs'.bpb.sectors_per_cluster 0 ≡ return j)
unfolding created
search_cluster-create_file fuel stack path filename attributes dir m j fs bytes sectors is small
      apart p ends free low plain a b before =
    let s = ide_read (get_disk_sector fs.bpb dir 0) fs in
    let (fs', e, fat, sector, table, same) =
      create_file-taken fuel stack path filename attributes dir m j fs bytes sectors is small apart
        p ends free low in
    let sixteen : entries_per_sector fs.bpb.bytes_per_sector ≡ 16 = entries-16 fs.bpb bytes in
    let found =
      search_sector-created s m j attributes filename low (omega arith) plain a b before in
    (
      fs',
      e,
      search_cluster-first filename fs' dir fs'.bpb.sectors_per_cluster j
          (omega (arith, sectors, ap (λ (c : Bpb). c.sectors_per_cluster) same))
          (subst
            (λ (c : Bpb).
              search_sector filename (ide_read (get_disk_sector c dir 0) fs')
                (entries_per_sector c.bytes_per_sector) 0
              ≡ return j)
            (sym same) (rw (sector, sixteen) found)),
    )
