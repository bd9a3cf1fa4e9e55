-- ===== src/Fat/Cluster/Delete.antt =====
-- What `deleteFATchain` leaves of a chain.
use ze_os_filesystem.Base.{
  ℕ, zero, suc, ◌≤◌, ◌<◌, ◌≡◌, refl, if◌then◌else◌, arith, List, length, has, update, ok, fault,
  lt→ltb, le→ltb,
}
use ze_os_filesystem.Fat.{FileSystem, fat_size}
use ze_os_filesystem.Fat.Cluster.{fat_at, delete_chain, delete_fat_chain}
use ze_os_filesystem.Fat.Cluster.Chain.{Chain, last, link, Chain-head, length-Chain}

pub fat_at-ok : (fs : FileSystem) (c : ℕ) → c < fat_size → fat_at fs c ≡ ok (fs.fat c)
unfolding fat_at
fat_at-ok fs c h = rw (lt→ltb c fat_size h) refl

pub fat_at-fault : (fs : FileSystem) (c : ℕ) → fat_size ≤ c → fat_at fs c ≡ fault
unfolding fat_at
fat_at-fault fs c h = rw (le→ltb c fat_size h) refl

delete_chain-Chain :
    (fs : FileSystem) (fuel : ℕ) {c : ℕ} {cs : List ℕ}
    → Chain fs.fat c cs
    → length cs ≤ fuel
    → (fat' : ℕ → ℕ) × (delete_chain fuel c fs ≡ ok (record fs { fat = fat' }))
      × ((x : ℕ) → fat' x ≡ (if has x cs then 0 else fs.fat x))
unfolding delete_chain
delete_chain-Chain fs zero (last h e) k = absurd (omega arith)
delete_chain-Chain fs zero (link h e live out r) k = absurd (omega arith)
delete_chain-Chain fs (suc fuel) (last {c} h e) k = (
  update fs.fat c 0,
  rw (fat_at-ok fs c h, le→ltb (fs.fat c) 0x0FFF_FFF6 (omega arith)) refl,
  λ x. ground arith,
)
delete_chain-Chain fs (suc fuel) (link {c} {d} h e live out r) k =
    let (f, done, at) = delete_chain-Chain fs fuel r (omega arith) in
    let small : d < fat_size = Chain-head r in
    (
      update f c 0,
      rw (fat_at-ok fs c h, e, lt→ltb d 0x0FFF_FFF6 (omega arith), done) refl,
      λ x. ground (arith, at x),
    )

-- Given a chain of distinct clusters of the table, `deleteFATchain` ends, marks exactly the clusters
-- of the chain as free and changes nothing else.
pub delete_fat_chain-Chain :
    (fs : FileSystem) {c : ℕ} {cs : List ℕ}
    → Chain fs.fat c cs
    → (fat' : ℕ → ℕ) × (delete_fat_chain c fs ≡ ok (record fs { fat = fat' }))
      × ((x : ℕ) → fat' x ≡ (if has x cs then 0 else fs.fat x))
unfolding delete_fat_chain
delete_fat_chain-Chain fs ch = delete_chain-Chain fs fat_size ch (length-Chain ch)
