-- ===== src/Fat/Search/Resolve.antt =====
-- Path resolution as a relation on the entries of directories, and what `searchFile` makes of a path.
use ze_os_filesystem.Base.{
  ℕ, zero, suc, ◌+◌, ◌≤◌, ◌<◌, ◌≡◌, refl, List, [], ◌∷◌, map, arith, ok, ◌>>=◌, get_elem?, All,
  lt→ltb, le→ltb, ◌==◌, if◌then◌else◌,
}
use ze_os_filesystem.Fat.{DirectoryEntry, FileSystem, fat_size, bad_cluster, not_found}
use ze_os_filesystem.Fat.Entry.{first_cluster}
use ze_os_filesystem.Fat.Path.{name_length, extract_filename}
use ze_os_filesystem.Fat.Path.Components.{join, pad, NoSlash, extract_filename-join}
use ze_os_filesystem.Fat.Cluster.Delete.{fat_at-ok}
use ze_os_filesystem.Fat.Search.{recursive_search, search_file}
use ze_os_filesystem.Fat.Search.Entries.{entries, IsEnd, HasName, IsDirectory, IsOther, FirstOf}
use ze_os_filesystem.Fat.Search.Lookup.{
  search_cluster-end, search_cluster-directory, search_cluster-file, search_cluster-others,
}

-- Where a path leads: to the file or the directory at a cluster; nowhere, since a name is not in its
-- directory; or through the name of a plain file at a cluster, behind which it goes on.
pub data Target : Type 0 where
  cluster : ℕ → Target
  nowhere : Target
  through_file : ℕ → Target

-- The names `ns`, looked up from the directory cluster `c` on, lead to a target. The directory of a
-- name is read cluster by cluster along its chain.
pub data Resolves (fs : FileSystem) : ℕ → List (List ℕ) → Target → Type 0 where
  here : {c : ℕ} → Resolves fs c [] (cluster c)
  to_file :
      {c : ℕ} {n : List ℕ} {e : DirectoryEntry}
      → FirstOf n (entries fs c) e
      → HasName n e
      → ¬ IsDirectory e
      → Resolves fs c (n ∷ []) (cluster (first_cluster e))
  behind_file :
      {c : ℕ} {n m : List ℕ} {ns : List (List ℕ)} {e : DirectoryEntry}
      → FirstOf n (entries fs c) e
      → HasName n e
      → ¬ IsDirectory e
      → Resolves fs c (n ∷ m ∷ ns) (through_file (first_cluster e))
  into :
      {c : ℕ} {n : List ℕ} {ns : List (List ℕ)} {e : DirectoryEntry} {t : Target}
      → FirstOf n (entries fs c) e
      → HasName n e
      → IsDirectory e
      → Resolves fs (first_cluster e) ns t
      → Resolves fs c (n ∷ ns) t
  along :
      {c d : ℕ} {n : List ℕ} {ns : List (List ℕ)} {t : Target}
      → All (IsOther n) (entries fs c)
      → c < fat_size
      → fs.fat c ≡ d
      → d ≤ bad_cluster
      → Resolves fs d (n ∷ ns) t
      → Resolves fs c (n ∷ ns) t
  ended :
      {c : ℕ} {n : List ℕ} {ns : List (List ℕ)} {e : DirectoryEntry}
      → FirstOf n (entries fs c) e
      → IsEnd e
      → Resolves fs c (n ∷ ns) nowhere
  chain_end :
      {c : ℕ} {n : List ℕ} {ns : List (List ℕ)}
      → All (IsOther n) (entries fs c)
      → c < fat_size
      → bad_cluster < fs.fat c
      → Resolves fs c (n ∷ ns) nowhere
  outside :
      {c : ℕ} {n : List ℕ} {ns : List (List ℕ)}
      → All (IsOther n) (entries fs c)
      → fat_size < c
      → Resolves fs c (n ∷ ns) nowhere

-- The clusters of directories that are read, and one more for a path that ends at a directory.
unfoldable pub visits :
    {fs : FileSystem} {c : ℕ} {ns : List (List ℕ)} {t : Target} → Resolves fs c ns t → ℕ
visits here = 1
visits (to_file f h p) = 1
visits (behind_file f h p) = 1
visits (into f h p r) = visits r + 1
visits (along o h q s r) = visits r + 1
visits (ended f h) = 1
visits (chain_end o h q) = 1
visits (outside o h) = 1

-- The cluster that `recursiveSearch` returns.
unfoldable pub reported : Target → ℕ
reported (cluster c) = c
reported nowhere = not_found
reported (through_file c) = c

-- The cluster that `searchFile` returns: a path behind a plain file is taken for the file itself, and
-- 0 stands for a path that leads nowhere, as for a cluster with the number of `not_found`.
unfoldable pub answered : Target → ℕ
answered (cluster c) = if c == not_found then 0 else c
answered nowhere = 0
answered (through_file c) = if c == not_found then 0 else c

-- The names from position `k` of a path on are `ns`.
abbrev From : List ℕ → ℕ → List (List ℕ) → Type 0
From path k ns = (j : ℕ) → extract_filename path (k + j) ≡ get_elem? (map (pad name_length) ns) j

From-next :
    (path : List ℕ) (k : ℕ) (n : List ℕ) (ns : List (List ℕ))
    → From path k (n ∷ ns)
    → From path (k + 1) ns
From-next path k n ns f j = let e : k + 1 + j ≡ k + suc j = omega arith in rw e (f (suc j))

From-first :
    (path : List ℕ) (k : ℕ) (ns : List (List ℕ))
    → From path k ns
    → extract_filename path k ≡ get_elem? (map (pad name_length) ns) 0
From-first path k ns f = let e : k ≡ k + 0 = omega arith in rw e (f 0)

recursive_search-Resolves :
    {fs : FileSystem} {c : ℕ} {ns : List (List ℕ)} {t : Target} (path : List ℕ) (fuel k : ℕ)
    → (d : Resolves fs c ns t) → From path k ns
    → visits d ≤ fuel
    → recursive_search fuel path c k fs ≡ ok (reported t)
unfolding recursive_search visits reported
recursive_search-Resolves path zero k here f h = absurd (omega arith)
recursive_search-Resolves path zero k (to_file e s q) f h = absurd (omega arith)
recursive_search-Resolves path zero k (behind_file e s q) f h = absurd (omega arith)
recursive_search-Resolves path zero k (into e s q r) f h = absurd (omega arith)
recursive_search-Resolves path zero k (along e s q b r) f h = absurd (omega arith)
recursive_search-Resolves path zero k (ended e s) f h = absurd (omega arith)
recursive_search-Resolves path zero k (chain_end e s q) f h = absurd (omega arith)
recursive_search-Resolves path zero k (outside e s) f h = absurd (omega arith)
recursive_search-Resolves path (suc fuel) k here f h =
    rw (From-first path k [] f, recursive_search) refl
recursive_search-Resolves {fs} path (suc fuel) k (to_file {c} {n} {e} first s q) f h =
    rw (From-first path k (n ∷ []) f, search_cluster-file fs c n e first s q, recursive_search) refl
recursive_search-Resolves {fs} path (suc fuel) k (behind_file {c} {n} {m} {ns} {e} first s q) f h =
    rw (From-first path k (n ∷ m ∷ ns) f, search_cluster-file fs c n e first s q, recursive_search)
      refl
recursive_search-Resolves {fs} path (suc fuel) k (into {c} {n} {ns} {e} first s q r) f h =
    rw (From-first path k (n ∷ ns) f, search_cluster-directory fs c n e first s q, recursive_search)
      (recursive_search-Resolves {c = first_cluster e} path fuel (k + 1) r (From-next path k n ns f)
        (omega arith))
recursive_search-Resolves {fs} path (suc fuel) k (along {c} {d} {n} {ns} others s q b r) f h =
    rw
      (
        From-first path k (n ∷ ns) f,
        search_cluster-others fs c n others,
        le→ltb fat_size c (omega arith),
        fat_at-ok fs c s,
        le→ltb bad_cluster (fs.fat c) (omega (arith, q)),
        recursive_search,
        ◌>>=◌,
      )
      (rw q (recursive_search-Resolves {c = d} path fuel k r f (omega arith)))
recursive_search-Resolves {fs} path (suc fuel) k (ended {c} {n} {ns} {e} first s) f h =
    rw (From-first path k (n ∷ ns) f, search_cluster-end fs c n e first s, recursive_search) refl
recursive_search-Resolves {fs} path (suc fuel) k (chain_end {c} {n} {ns} others s q) f h =
    rw
      (
        From-first path k (n ∷ ns) f,
        search_cluster-others fs c n others,
        le→ltb fat_size c (omega arith),
        fat_at-ok fs c s,
        lt→ltb bad_cluster (fs.fat c) q,
        recursive_search,
        ◌>>=◌,
      )
      refl
recursive_search-Resolves {fs} path (suc fuel) k (outside {c} {n} {ns} others s) f h =
    rw
      (
        From-first path k (n ∷ ns) f,
        search_cluster-others fs c n others,
        lt→ltb fat_size c s,
        recursive_search,
      )
      refl

answered-reported : (t : Target) → (if reported t == not_found then 0 else reported t) ≡ answered t
unfolding reported answered
answered-reported (cluster c) = refl
answered-reported nowhere = refl
answered-reported (through_file c) = refl

pub search_file-Resolves :
    {fs : FileSystem} {ns : List (List ℕ)} {t : Target} (fuel : ℕ)
    → All NoSlash ns
    → (d : Resolves fs fs.ebr.root_cluster_num ns t) → visits d ≤ fuel
    → search_file fuel (join ns) fs ≡ ok (answered t)
unfolding search_file
search_file-Resolves {ns} {t} fuel plain d h =
    rw
      (
        recursive_search-Resolves (join ns) fuel 1 d
            (λ j. let e : 1 + j ≡ suc j = omega arith in rw e (extract_filename-join ns j plain)) h,
        ◌>>=◌,
        answered-reported t,
      )
      refl
