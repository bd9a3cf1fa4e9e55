-- ===== src/Fat/Cluster/Allocate.antt =====
-- What `allocateCluster` finds, and what it does to the chain that it extends.
use ze_os_filesystem.Base.{
  ltb, ltb→lt, ap, ◌∙◌, ℕ, zero, suc, ◌+◌, ◌-◌, ◌≤◌, ◌<◌, ◌≡◌, ◌≢◌, ◌⊎◌, inl, inr, refl, ◌==◌,
  arith, List, [], ◌∷◌, ◌++◌, length, has-append, ne_of_mem, ok, lt→ltb, le→ltb, some, none, update,
  ◌∉◌, ◌∈◌, Bool-cases, false, ==_ne,
}
use ze_os_filesystem.Fat.{FileSystem, fat_size, free_cluster, bad_cluster, end_of_chain}
use ze_os_filesystem.Fat.Cluster.{last_cluster, find_free, hint, search_free, allocate_cluster}
use ze_os_filesystem.Fat.Cluster.Chain.{Chain, last, link, Chain-head, Chain-update, length-Chain}
use ze_os_filesystem.Fat.Cluster.Delete.{fat_at-ok}

-- `j` is the first free cluster from `i` on, below `n`.
pub record FirstFree (fat : ℕ → ℕ) (i n j : ℕ) : Type 0 where
  pub from : i ≤ j
  pub within : j < n
  pub free : fat j ≡ free_cluster
  pub first : (k : ℕ) → i ≤ k → k < j → fat k ≢ free_cluster

abbrev pub NoneFree : (ℕ → ℕ) → ℕ → ℕ → Type 0
NoneFree fat i n = (k : ℕ) → i ≤ k → k < n → fat k ≢ free_cluster

used_first :
    (fat : ℕ → ℕ) (i k : ℕ)
    → (fat i == free_cluster) ≡ false
    → i ≤ k
    → (i + 1 ≤ k → fat k ≢ free_cluster)
    → fat k ≢ free_cluster
used_first fat i k miss p rest = elim (Bool-cases (k == i)) [
  | inl same ↦ let e : k ≡ i = ground arith in rw e (ground arith)
  | inr other ↦ rest (ground arith)
]

pub find_free_cases :
    (fat : ℕ → ℕ) (n i : ℕ)
    → ((j : ℕ) × (find_free fat n i ≡ some j) × FirstFree fat i (i + n) j)
      ⊎ ((find_free fat n i ≡ none) × NoneFree fat i (i + n))
unfolding find_free
find_free_cases fat zero i = inr (refl, λ k p q. absurd (omega arith))
find_free_cases fat (suc n) i = elim (Bool-cases (fat i == free_cluster)) [
  | inl hit ↦ inl (
    i,
    rw hit refl,
    record {
      from = omega arith;
      within = omega arith;
      free = ground arith;
      first = λ k p q. absurd (omega arith);
    },
  )
  | inr miss ↦ elim (find_free_cases fat n (i + 1)) [
    | inl (j, e, f) ↦ inl (
      j,
      rw miss e,
      record {
        from = omega (arith, f.from);
        within = omega (arith, f.within);
        free = f.free;
        first = λ k p q. used_first fat i k miss p (λ r. f.first k r q);
      },
    )
    | inr (e, f) ↦ inr (rw miss e, λ k p q. used_first fat i k miss p (λ r. f k r (omega arith)))
  ]
]

pub search_free_cases :
    (fs : FileSystem)
    → ((j : ℕ) × (search_free fs ≡ some j) × FirstFree fs.fat (hint fs) fat_size j)
      ⊎ ((search_free fs ≡ none) × NoneFree fs.fat (hint fs) fat_size)
unfolding search_free
search_free_cases fs = elim (find_free_cases fs.fat (fat_size - hint fs) (hint fs)) [
  | inl (j, e, f) ↦ inl (
    j,
    e,
    record {
      from = f.from;
      within = omega (arith, f.from, f.within);
      free = f.free;
      first = f.first;
    },
  )
  | inr (e, f) ↦ inr (e, λ k p q. f k p (omega arith))
]

-- The state after cluster `j` is taken for a new chain.
abbrev pub taken : ℕ → FileSystem → FileSystem
taken j fs = record fs {
  fat = update fs.fat j end_of_chain;
  info = record (fs.info) { where_clusters = j + 1 };
}

-- A new chain: the first free cluster from the hint on becomes an end of chain, and the one behind it
-- the next hint; where no cluster from the hint on is free, the state is left as it was.
pub allocate_cluster_new :
    (stack : ℕ) (fs : FileSystem)
    → ((j : ℕ) × (allocate_cluster stack 0 fs ≡ ok (j, taken j fs))
        × FirstFree fs.fat (hint fs) fat_size j)
      ⊎ ((allocate_cluster stack 0 fs ≡ ok (end_of_chain, fs)) × NoneFree fs.fat (hint fs) fat_size)
unfolding allocate_cluster
allocate_cluster_new stack fs = elim (search_free_cases fs) [
  | inl (j, e, f) ↦ inl (j, rw (e, allocate_cluster) refl, f)
  | inr (e, f) ↦ inr (rw (e, allocate_cluster) refl, f)
]

kept :
    (fat : ℕ → ℕ) (c d z j : ℕ) (cs : List ℕ)
    → c ≢ z
    → j ∉ c ∷ cs
    → fat c ≡ d
    → update (update fat z j) j end_of_chain c ≡ d
kept fat c d z j cs other fresh e = ground arith

last_cluster-Chain :
    (fs : FileSystem) (fuel : ℕ) {c : ℕ} {cs : List ℕ}
    → Chain fs.fat c cs
    → length cs ≤ fuel
    → (z : ℕ) × (last_cluster fuel fs c ≡ ok z)
      × (z ∈ cs)
      × ((j : ℕ)
          → j < fat_size
          → 0 < j
          → j ∉ cs
          → Chain (update (update fs.fat z j) j end_of_chain) c (cs ++ j ∷ []))
unfolding last_cluster
last_cluster-Chain fs zero (last h e) k = absurd (omega arith)
last_cluster-Chain fs zero (link h e live out r) k = absurd (omega arith)
last_cluster-Chain fs (suc fuel) (last {c} h e) k = (
  c,
  rw (fat_at-ok fs c h, le→ltb (fs.fat c) bad_cluster (omega arith)) refl,
  ground arith,
  λ j small positive fresh.
      link h (ground arith) positive (ground arith) (last small (ground arith)),
)
last_cluster-Chain fs (suc fuel) (link {c} {d} {cs} h e live out r) k =
    let (z, done, is, extend) = last_cluster-Chain fs fuel r (omega arith) in
    let small : d < fat_size = Chain-head r in
    let other = ne_of_mem c z cs out is in
    (
      z,
      rw (fat_at-ok fs c h, e, lt→ltb d bad_cluster (omega arith)) done,
      ground arith,
      λ j within positive fresh.
          link h (kept fs.fat c d z j cs other fresh e) live
            (rw (has-append c (j ∷ []) cs, out) (ground arith))
            (extend j within positive (ground arith)),
    )

free-not-mem : (fat : ℕ → ℕ) {c : ℕ} {cs : List ℕ} (j : ℕ) → Chain fat c cs → fat j ≡ 0 → j ∉ cs
free-not-mem fat j (last {c} h e) free = ground arith
free-not-mem fat j (link {c} h e live out r) free = ground (arith, free-not-mem fat j r free)

-- The state after cluster `j` is linked to the cluster `z`.
abbrev pub linked : ℕ → ℕ → FileSystem → FileSystem
linked z j fs = record fs {
  fat = update (update fs.fat z j) j end_of_chain;
  info = record (fs.info) { where_clusters = j + 1 };
}

-- Given a chain, a hint that is not 0, and where the stack happens to hold a zero for the variable
-- `newFile`: the first free cluster from the hint on becomes the chain's new end; where
-- there is none, the state is left as it was.
pub allocate_cluster_extend :
    (fs : FileSystem) {c : ℕ} {cs : List ℕ}
    → Chain fs.fat c cs
    → c ≢ 0
    → 0 < hint fs
    → ((j : ℕ) × (z : ℕ) × (allocate_cluster 0 c fs ≡ ok (j, linked z j fs))
        × FirstFree fs.fat (hint fs) fat_size j
        × Chain (linked z j fs).fat c (cs ++ j ∷ []))
      ⊎ ((allocate_cluster 0 c fs ≡ ok (end_of_chain, fs)) × NoneFree fs.fat (hint fs) fat_size)
unfolding allocate_cluster
allocate_cluster_extend fs {c} {cs} ch start positive =
    let (z, done, is, extend) = last_cluster-Chain fs fat_size ch (length-Chain ch) in
    elim (search_free_cases fs) [
      | inl (j, e, f) ↦ inl (
        j,
        z,
        rw (==_ne c 0 start, done, e, allocate_cluster) refl,
        f,
        extend j f.within (omega (arith, positive, f.from)) (free-not-mem fs.fat j ch f.free),
      )
      | inr (e, f) ↦ inr (rw (==_ne c 0 start, done, e, allocate_cluster) refl, f)
    ]

-- Given a chain, and where the stack happens to hold another value for `newFile`: a cluster is taken
-- as for a new file, and the chain that was to grow is the same as before.
pub allocate_cluster_unlinked :
    (stack : ℕ) (fs : FileSystem) {c : ℕ} {cs : List ℕ}
    → Chain fs.fat c cs
    → c ≢ 0
    → stack ≢ 0
    → ((j : ℕ) × (allocate_cluster stack c fs ≡ ok (j, taken j fs))
        × FirstFree fs.fat (hint fs) fat_size j
        × Chain (taken j fs).fat c cs)
      ⊎ ((allocate_cluster stack c fs ≡ ok (end_of_chain, fs)) × NoneFree fs.fat (hint fs) fat_size)
unfolding allocate_cluster
allocate_cluster_unlinked stack fs {c} {cs} ch start garbage = elim (search_free_cases fs) [
  | inl (j, e, f) ↦ inl (
    j,
    rw (==_ne c 0 start, ==_ne stack 0 garbage, e, allocate_cluster) refl,
    f,
    Chain-update j end_of_chain ch (free-not-mem fs.fat j ch f.free),
  )
  | inr (e, f) ↦ inr (rw (==_ne c 0 start, ==_ne stack 0 garbage, e, allocate_cluster) refl, f)
]

pub FirstFree-unique :
    (fat : ℕ → ℕ) (i n j k : ℕ) → FirstFree fat i n j → FirstFree fat i n k → j ≡ k
FirstFree-unique fat i n j k f g = elim (Bool-cases (ltb j k)) [
  | inl below ↦ absurd (g.first j f.from (ltb→lt j k below) f.free)
  | inr rest ↦ elim (Bool-cases (ltb k j)) [
    | inl above ↦ absurd (f.first k g.from (ltb→lt k j above) g.free)
    | inr same ↦ ground arith
  ]
]

pub allocate_cluster_first :
    (stack j : ℕ) (fs : FileSystem)
    → FirstFree fs.fat (hint fs) fat_size j
    → allocate_cluster stack 0 fs ≡ ok (j, taken j fs)
allocate_cluster_first stack j fs f = elim (allocate_cluster_new stack fs) [
  | inl (k, e, g) ↦
      let same : k ≡ j = FirstFree-unique fs.fat (hint fs) fat_size k j g f in
      e ∙ ap (λ (x : ℕ). ok (x, taken x fs)) same
  | inr (e, none_free) ↦ absurd (none_free j f.from f.within f.free)
]

pub allocate_cluster_full :
    (stack : ℕ) (fs : FileSystem)
    → NoneFree fs.fat (hint fs) fat_size
    → allocate_cluster stack 0 fs ≡ ok (end_of_chain, fs)
allocate_cluster_full stack fs full = elim (allocate_cluster_new stack fs) [
  | inl (k, e, g) ↦ absurd (full k g.from g.within g.free)
  | inr (e, none_free) ↦ e
]
