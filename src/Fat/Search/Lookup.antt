-- ===== src/Fat/Search/Lookup.antt =====
-- The two loops of `recursiveSearch` find what a cluster of a directory holds for a name.
use ze_os_filesystem.Base.{
  subst, ℕ, zero, suc, ◌+◌, ◌≡◌, refl, true, Bool-cases, inl, inr, List, [], ◌∷◌, ◌++◌, length, All,
  arith, sym, ◌∙◌, ◌==◌, ==_ne, ◌%◌, ◌||◌, ap, if◌then◌else◌, length-slice,
}
use ze_os_filesystem.Fat.{Buffer, DirectoryEntry, FileSystem, not_found, get_disk_sector, ide_read}
use ze_os_filesystem.Fat.Path.{name_length, compare_filename}
use ze_os_filesystem.Fat.Path.Components.{pad, length-pad, compare_filename_iff}
use ze_os_filesystem.Fat.Entry.{first_cluster, get_directory_entry}
use ze_os_filesystem.Fat.Search.{
  Step, next, return, descend, or_else, entries_per_sector, search_entry, search_sector,
  search_cluster,
}
use ze_os_filesystem.Fat.Search.Entries.{
  sector_entries, cluster_entries, entries, first_byte, IsEnd, HasName, IsDirectory, IsOther,
  FirstOf,
}

-- Names of entries have 11 bytes.
abbrev Sized : DirectoryEntry → Type 0
Sized e = length e.filename ≡ name_length

search_entries : List ℕ → List DirectoryEntry → Step
search_entries name [] = next
search_entries name (e ∷ es) = or_else (search_entry name e) (search_entries name es)

or_else_assoc : (a b c : Step) → or_else (or_else a b) c ≡ or_else a (or_else b c)
or_else_assoc next b c = refl
or_else_assoc (return r) b c = refl
or_else_assoc (descend r) b c = refl

search_entries-append :
    (name : List ℕ) (xs ys : List DirectoryEntry)
    → search_entries name (xs ++ ys) ≡ or_else (search_entries name xs) (search_entries name ys)
unfolding search_entries
search_entries-append name [] ys = refl
search_entries-append name (x ∷ xs) ys =
    rw (search_entries-append name xs ys)
      (sym (or_else_assoc (search_entry name x) (search_entries name xs) (search_entries name ys)))

search_sector-entries :
    (name : List ℕ) (sector : Buffer) (n i : ℕ)
    → search_sector name sector n i ≡ search_entries name (sector_entries sector n i)
unfolding search_sector sector_entries search_entries
search_sector-entries name sector zero i = refl
search_sector-entries name sector (suc n) i = rw (search_sector-entries name sector n (i + 32)) refl

search_cluster-entries :
    (name : List ℕ) (fs : FileSystem) (cluster n num : ℕ)
    → search_cluster name fs cluster n num ≡ search_entries name (cluster_entries fs cluster n num)
unfolding search_cluster cluster_entries search_entries
search_cluster-entries name fs cluster zero num = refl
search_cluster-entries name fs cluster (suc n) num =
    let sector = ide_read (get_disk_sector fs.bpb cluster num) fs in
    let count = entries_per_sector fs.bpb.bytes_per_sector in
    rw
      (
        search_sector-entries name sector count 0,
        search_cluster-entries name fs cluster n (num + 1),
      )
      (sym (
        search_entries-append name (sector_entries sector count 0)
          (cluster_entries fs cluster n (num + 1))))

Sized-append : (xs ys : List DirectoryEntry) → All Sized xs → All Sized ys → All Sized (xs ++ ys)
Sized-append [] ys p q = q
Sized-append (x ∷ xs) ys p q = (p.0, Sized-append xs ys p.1 q)

Sized-split : (xs ys : List DirectoryEntry) → All Sized (xs ++ ys) → All Sized xs × All Sized ys
Sized-split [] ys p = (tt, p)
Sized-split (x ∷ xs) ys p = let (q, r) = Sized-split xs ys p.1 in ((p.0, q), r)

sector_entries-Sized : (sector : Buffer) (n i : ℕ) → All Sized (sector_entries sector n i)
unfolding sector_entries get_directory_entry
sector_entries-Sized sector zero i = tt
sector_entries-Sized sector (suc n) i = (
  length-slice sector (if i % 32 == 0 then i else 0) name_length,
  sector_entries-Sized sector n (i + 32),
)

cluster_entries-Sized :
    (fs : FileSystem) (cluster n num : ℕ) → All Sized (cluster_entries fs cluster n num)
unfolding cluster_entries
cluster_entries-Sized fs cluster zero num = tt
cluster_entries-Sized fs cluster (suc n) num =
    let sector = ide_read (get_disk_sector fs.bpb cluster num) fs in
    let count = entries_per_sector fs.bpb.bytes_per_sector in
    Sized-append (sector_entries sector count 0) (cluster_entries fs cluster n (num + 1))
      (sector_entries-Sized sector count 0) (cluster_entries-Sized fs cluster n (num + 1))

-- The three kinds of entries, as the code tells them apart.
search_entry-end :
    (name : List ℕ) (e : DirectoryEntry) → IsEnd e → search_entry name e ≡ return not_found
unfolding search_entry
search_entry-end name e end = rw end refl

compare-HasName :
    (n : List ℕ) (e : DirectoryEntry)
    → e.filename ≡ pad name_length n
    → compare_filename (pad name_length n) e.filename ≡ true
compare-HasName n e same =
    (compare_filename_iff (pad name_length n) e.filename (length-pad name_length n)
        (ap length same ∙ length-pad name_length n)).1
      (sym same)

search_entry-directory :
    (n : List ℕ) (e : DirectoryEntry)
    → HasName n e
    → IsDirectory e
    → search_entry (pad name_length n) e ≡ descend (first_cluster e)
unfolding search_entry
search_entry-directory n e h dir =
    rw
      (
        ==_ne (first_byte e) 0 h.live,
        ==_ne (first_byte e) 0x2E h.not_dots,
        ==_ne (first_byte e) 0xE5 h.not_deleted,
        dir,
        compare-HasName n e h.same,
      )
      refl

search_entry-file :
    (n : List ℕ) (e : DirectoryEntry)
    → HasName n e
    → ¬ IsDirectory e
    → search_entry (pad name_length n) e ≡ return (first_cluster e)
unfolding search_entry
search_entry-file n e h file =
    rw
      (
        ==_ne (first_byte e) 0 h.live,
        ==_ne (first_byte e) 0x2E h.not_dots,
        ==_ne (first_byte e) 0xE5 h.not_deleted,
        ==_ne e.attributes 0x0F h.not_long,
        ==_ne e.attributes 0x10 file,
        compare-HasName n e h.same,
      )
      refl

search_entry-other :
    (n : List ℕ) (e : DirectoryEntry)
    → Sized e
    → IsOther n e
    → search_entry (pad name_length n) e ≡ next
unfolding search_entry
search_entry-other n e sized (live, unnamed) =
    elim (Bool-cases (compare_filename (pad name_length n) e.filename)) [
      | inr differs ↦ rw differs (ground arith)
      | inl equal ↦
          let same =
            (compare_filename_iff (pad name_length n) e.filename (length-pad name_length n) sized).0
              equal in
          elim (Bool-cases (first_byte e == 0x2E || first_byte e == 0xE5 || e.attributes == 0x0F)) [
            | inl skipped ↦ rw equal (ground arith)
            | inr used ↦ absurd (
                unnamed (record {
                  live = live;
                  not_dots = ground arith;
                  not_deleted = ground arith;
                  not_long = ground arith;
                  same = sym same;
                }))
          ]
    ]

search_entries-others :
    (n : List ℕ) (es : List DirectoryEntry)
    → All Sized es
    → All (IsOther n) es
    → search_entries (pad name_length n) es ≡ next
unfolding search_entries
search_entries-others n [] sized others = refl
search_entries-others n (e ∷ es) sized others =
    rw (search_entry-other n e sized.0 others.0) (search_entries-others n es sized.1 others.1)

-- The search in a cluster goes by the first entry that is not another one.
search_cluster-first :
    (fs : FileSystem) (cluster : ℕ) (n : List ℕ) (e : DirectoryEntry)
    → (first : FirstOf n (entries fs cluster) e)
    → search_cluster (pad name_length n) fs cluster fs.bpb.sectors_per_cluster 0
      ≡ or_else
          (search_entry (pad name_length n) e)
          (search_entries (pad name_length n) first.after)
unfolding search_entries
search_cluster-first fs cluster n e first =
    let sized =
      subst (All Sized) first.split
        (cluster_entries-Sized fs cluster fs.bpb.sectors_per_cluster 0) in
    rw
      (
        search_cluster-entries (pad name_length n) fs cluster fs.bpb.sectors_per_cluster 0,
        first.split,
        search_entries-append (pad name_length n) first.before (e ∷ first.after),
        search_entries-others n first.before (Sized-split first.before (e ∷ first.after) sized).0
            first.others,
      )
      refl

pub search_cluster-end :
    (fs : FileSystem) (cluster : ℕ) (n : List ℕ) (e : DirectoryEntry)
    → FirstOf n (entries fs cluster) e
    → IsEnd e
    → search_cluster (pad name_length n) fs cluster fs.bpb.sectors_per_cluster 0 ≡ return not_found
search_cluster-end fs cluster n e first end =
    rw (search_cluster-first fs cluster n e first, search_entry-end (pad name_length n) e end) refl

pub search_cluster-directory :
    (fs : FileSystem) (cluster : ℕ) (n : List ℕ) (e : DirectoryEntry)
    → FirstOf n (entries fs cluster) e
    → HasName n e
    → IsDirectory e
    → search_cluster (pad name_length n) fs cluster fs.bpb.sectors_per_cluster 0
      ≡ descend (first_cluster e)
search_cluster-directory fs cluster n e first named dir =
    rw (search_cluster-first fs cluster n e first, search_entry-directory n e named dir) refl

pub search_cluster-file :
    (fs : FileSystem) (cluster : ℕ) (n : List ℕ) (e : DirectoryEntry)
    → FirstOf n (entries fs cluster) e
    → HasName n e
    → ¬ IsDirectory e
    → search_cluster (pad name_length n) fs cluster fs.bpb.sectors_per_cluster 0
      ≡ return (first_cluster e)
search_cluster-file fs cluster n e first named file =
    rw (search_cluster-first fs cluster n e first, search_entry-file n e named file) refl

pub search_cluster-others :
    (fs : FileSystem) (cluster : ℕ) (n : List ℕ)
    → All (IsOther n) (entries fs cluster)
    → search_cluster (pad name_length n) fs cluster fs.bpb.sectors_per_cluster 0 ≡ next
search_cluster-others fs cluster n others =
    rw (search_cluster-entries (pad name_length n) fs cluster fs.bpb.sectors_per_cluster 0) (
      search_entries-others n (entries fs cluster)
        (cluster_entries-Sized fs cluster fs.bpb.sectors_per_cluster 0) others)
