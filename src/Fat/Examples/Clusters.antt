-- ===== src/Fat/Examples/Clusters.antt =====
-- The small disk: cluster chains.
use ze_os_filesystem.Base.{ℕ, ◌≡◌, ◌⊎◌, if◌then◌else◌, arith, [], ◌∷◌, ◌++◌, has, ok}
use ze_os_filesystem.Fat.{fat_size, end_of_chain}
use ze_os_filesystem.Fat.Cluster.{hint, allocate_cluster, delete_fat_chain}
use ze_os_filesystem.Fat.Cluster.Chain.{Chain}
use ze_os_filesystem.Fat.Cluster.Delete.{delete_fat_chain-Chain}
use ze_os_filesystem.Fat.Cluster.Allocate.{
  FirstFree, NoneFree, taken, linked, allocate_cluster_new, allocate_cluster_extend,
}
use ze_os_filesystem.Fat.Examples.{small_fat, small_fs, hello-Chain}

delete_fat_chain-Chain_example :
    (fat' : ℕ → ℕ) × (delete_fat_chain 3 small_fs ≡ ok (record small_fs { fat = fat' }))
    × ((x : ℕ) → fat' x ≡ (if has x (3 ∷ 4 ∷ []) then 0 else small_fat x))
delete_fat_chain-Chain_example = delete_fat_chain-Chain small_fs hello-Chain

allocate_cluster_new_example :
    ((j : ℕ) × (allocate_cluster 7 0 small_fs ≡ ok (j, taken j small_fs))
      × FirstFree small_fat (hint small_fs) fat_size j)
    ⊎ ((allocate_cluster 7 0 small_fs ≡ ok (end_of_chain, small_fs))
        × NoneFree small_fat (hint small_fs) fat_size)
allocate_cluster_new_example = allocate_cluster_new 7 small_fs

allocate_cluster_extend_example :
    ((j : ℕ) × (z : ℕ) × (allocate_cluster 0 3 small_fs ≡ ok (j, linked z j small_fs))
      × FirstFree small_fat (hint small_fs) fat_size j
      × Chain (linked z j small_fs).fat 3 ((3 ∷ 4 ∷ []) ++ j ∷ []))
    ⊎ ((allocate_cluster 0 3 small_fs ≡ ok (end_of_chain, small_fs))
        × NoneFree small_fat (hint small_fs) fat_size)
allocate_cluster_extend_example =
    allocate_cluster_extend small_fs hello-Chain (omega arith) (omega arith)
