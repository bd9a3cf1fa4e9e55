-- ===== src/Fat/File/Transfer.antt =====
-- What `writeFile` changes on disk, what `readFile` returns, and that the one undoes the other.
use native.Mathlib.Nat.{div-add-mod, mod-lt}
use ze_os_filesystem.Base.{
  ℕ, zero, suc, ◌+◌, ◌-◌, ◌*◌, ◌/◌, ◌%◌, ◌^◌, ◌≤◌, ◌<◌, ◌≡◌, refl, ltb, ◌==◌, arith, List, [], ◌∷◌,
  length, update, get_or, slice, ok, ◌>>=◌, Bool-cases, inl, inr, lt→ltb, le→leb, ap, ◌∙◌, sym,
  fun_ext, ap₂, ==_iff, ==_ne,
}
use ze_os_filesystem.Fat.{fat_size, Disk, Bpb, FileSystem, get_disk_sector}
use ze_os_filesystem.Fat.Cluster.{fat_at}
use ze_os_filesystem.Fat.File.{Cursor, walk_chain, start_transfer, write_file, read_file}
use ze_os_filesystem.Fat.File.Sectors.{
  byte_at, pending, position, patched, InCluster, write_loop-patched, read_loop-slice,
}

-- A transfer of `n` bytes from `start_byte` of a file: the walk through the table ends at cluster
-- `d`, and the bytes lie in its sectors or in the one behind them.
pub record Placed (b : Bpb) (fs : FileSystem) (start start_byte n d : ℕ) : Type 0 where
  pub sector_size : b.bytes_per_sector ≡ 512
  pub has_sectors : 0 < b.sectors_per_cluster
  pub walk : walk_chain (start_byte / (512 * b.sectors_per_cluster)) fs start ≡ ok d
  pub room : start_byte % (512 * b.sectors_per_cluster) + n ≤ (b.sectors_per_cluster + 1) * 512
  pub fits : d * b.sectors_per_cluster + b.reserved_sectors + b.sectors_per_cluster < 2 ^ 32

-- The address on disk of byte `start_byte` of a file, in cluster `d`.
abbrev pub address : Bpb → ℕ → ℕ → ℕ
address b d start_byte =
    (d * b.sectors_per_cluster + b.reserved_sectors) * 512
    + start_byte % (512 * b.sectors_per_cluster)

mod_mod : (x s : ℕ) → 0 < s → x % (512 * s) % 512 ≡ x % 512
mod_mod x s h = omega (arith, div-add-mod x (512 * s))

mod_bound : (x s : ℕ) → 0 < s → x % (512 * s) / 512 < s
mod_bound x s h =
    let positive : 0 < 512 * s = omega arith in omega (arith, mod-lt x {m = 512 * s} positive)

module _ (b : Bpb) (fs : FileSystem) (start start_byte n d : ℕ)
    (p : Placed b fs start start_byte n d) where
  start_cursor : Cursor
  start_cursor =
      let num = start_byte % (512 * b.sectors_per_cluster) / 512 in
      let sector = d * b.sectors_per_cluster + b.reserved_sectors + num in
      record {
        cluster = d;
        sector_num = num;
        below = 0;
        disk_sector = sector;
        sector_it = start_byte % 512;
        buffer = fs.disk sector;
      }

  start_transfer-ok : start_transfer b start start_byte fs ≡ ok start_cursor
  unfolding start_transfer get_disk_sector start_cursor
  start_transfer-ok =
      let s = b.sectors_per_cluster in
      let num = start_byte % (512 * s) / 512 in
      let no_wrap : (d * s + b.reserved_sectors + num) % 2 ^ 32 ≡ d * s + b.reserved_sectors + num =
        omega (arith, mod_bound start_byte s p.has_sectors, p.fits) in
      rw (p.sector_size, ==_ne (512 * s) 0 (omega (arith, p.has_sectors)), p.walk, no_wrap) refl

  start_cursor-InCluster : InCluster b start_cursor n
  unfolding start_cursor
  start_cursor-InCluster = record {
    sector_size = p.sector_size;
    in_sector = omega arith;
    room = omega (arith, p.room, mod_mod start_byte b.sectors_per_cluster p.has_sectors);
    no_wrap = omega (arith, p.fits);
  }

  position-start_cursor : position start_cursor ≡ address b d start_byte
  unfolding start_cursor
  position-start_cursor = omega (arith, mod_mod start_byte b.sectors_per_cluster p.has_sectors)

  start_cursor-buffer : start_cursor.buffer ≡ fs.disk start_cursor.disk_sector
  unfolding start_cursor
  start_cursor-buffer = refl

pending-clean :
    (c : Cursor) (fs : FileSystem) → c.buffer ≡ fs.disk c.disk_sector → pending c fs ≡ fs.disk
pending-clean c fs is = fun_ext λ s. elim (Bool-cases (s == c.disk_sector)) [
  | inl same ↦ rw same (is ∙ ap fs.disk (sym ((==_iff _ _).0 same)))
  | inr other ↦ rw other refl
]

-- Given sectors of 512 bytes and a transfer that stays within the sectors of its first cluster and the one behind them on
-- disk, `writeFile` succeeds, changes the disk alone, and there exactly the bytes from the file's
-- address on, which become those of the buffer.
pub write_file-patched :
    (stack : ℕ → ℕ) (fs : FileSystem) (start start_byte d : ℕ) (bytes : List ℕ)
    → Placed fs.bpb fs start start_byte (length bytes) d
    → (disk' : Disk) × (write_file stack start bytes start_byte fs
        ≡ ok (record fs { disk = disk' }))
      × ((k : ℕ) → byte_at disk' k ≡ patched fs.disk (address fs.bpb d start_byte) bytes k)
unfolding write_file
write_file-patched stack fs start start_byte d bytes p =
    let n = length bytes in
    let c = start_cursor fs.bpb fs start start_byte n d p in
    let (c', disk', e, at) =
      write_loop-patched stack start fs.bpb bytes c fs
        (start_cursor-InCluster fs.bpb fs start start_byte n d p) in
    (
      update disk' c'.disk_sector c'.buffer,
      rw (start_transfer-ok fs.bpb fs start start_byte n d p, e) refl,
      λ k.
          at k
          ∙ ap₂ (λ (e : Disk) (a : ℕ). patched e a bytes k)
              (pending-clean c fs (start_cursor-buffer fs.bpb fs start start_byte n d p))
              (position-start_cursor fs.bpb fs start start_byte n d p),
    )

-- Given sectors of 512 bytes and a transfer that stays within the sectors of its first cluster and the one behind them on
-- disk, `readFile` returns the bytes of the disk from the file's address on.
pub read_file-slice :
    (fs : FileSystem) (start start_byte d n : ℕ)
    → Placed fs.bpb fs start start_byte n d
    → read_file start n start_byte fs ≡ ok (slice (byte_at fs.disk) (address fs.bpb d start_byte) n)
unfolding read_file
read_file-slice fs start start_byte d n p =
    rw
      (
        start_transfer-ok fs.bpb fs start start_byte n d p,
        ← position-start_cursor fs.bpb fs start start_byte n d p,
      )
      (read_loop-slice fs.bpb n _ fs (start_cursor-InCluster fs.bpb fs start start_byte n d p)
        (start_cursor-buffer fs.bpb fs start start_byte n d p))

walk_chain-disk :
    (fs : FileSystem) (disk' : Disk) (n c : ℕ)
    → walk_chain n (record fs { disk = disk' }) c ≡ walk_chain n fs c
unfolding walk_chain fat_at
walk_chain-disk fs disk' zero c = refl
walk_chain-disk fs disk' (suc n) c = elim (Bool-cases (ltb c fat_size)) [
  | inl within ↦ rw within (walk_chain-disk fs disk' n (fs.fat c))
  | inr outside ↦ rw outside refl
]

slice-get_or :
    (f : ℕ → ℕ) (a : ℕ) (xs : List ℕ)
    → ((j : ℕ) → j < length xs → f (a + j) ≡ get_or xs j 0)
    → slice f a (length xs) ≡ xs
slice-get_or f a [] h = refl
slice-get_or f a (x ∷ xs) h =
    let first : f a ≡ x = ground (arith, h 0) in
    let rest =
      slice-get_or f (a + 1) xs
        (λ j p. let e : a + 1 + j ≡ a + suc j = omega arith in rw e (h (suc j) (omega arith))) in
    rw (first, rest) refl

patched_inside :
    (e : Disk) (a : ℕ) (xs : List ℕ) (j : ℕ)
    → j < length xs
    → patched e a xs (a + j) ≡ get_or xs j 0
patched_inside e a xs j h =
    let back : a + j - a ≡ j = omega arith in
    rw (le→leb a (a + j) (omega arith), lt→ltb (a + j) (a + length xs) (omega arith), back) refl

-- Given sectors of 512 bytes and a transfer that stays within the sectors of its first cluster and the one behind them on
-- disk, `writeFile` and then `readFile` at the same byte of the same file succeed, and the bytes that
-- are read are those that were written.
pub read_file-write_file :
    (stack : ℕ → ℕ) (fs : FileSystem) (start start_byte d : ℕ) (bytes : List ℕ)
    → Placed fs.bpb fs start start_byte (length bytes) d
    → (write_file stack start bytes start_byte fs >>= read_file start (length bytes) start_byte)
      ≡ ok bytes
read_file-write_file stack fs start start_byte d bytes p =
    let (disk', e, at) = write_file-patched stack fs start start_byte d bytes p in
    let fs' = record fs { disk = disk' } in
    let p' : Placed fs.bpb fs' start start_byte (length bytes) d = record {
      sector_size = p.sector_size;
      has_sectors = p.has_sectors;
      walk = walk_chain-disk fs disk' _ start ∙ p.walk;
      room = p.room;
      fits = p.fits;
    } in
    rw e (
      read_file-slice fs' start start_byte d (length bytes) p'
      ∙ ap ok (
          slice-get_or (byte_at disk') (address fs.bpb d start_byte) bytes λ j q.
            at (address fs.bpb d start_byte + j)
            ∙ patched_inside fs.disk (address fs.bpb d start_byte) bytes j q))
