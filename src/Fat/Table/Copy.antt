-- ===== src/Fat/Table/Copy.antt =====
-- What `copyFATtoDisk` leaves on disk.
use ze_os_filesystem.Base.{
  ℕ, zero, suc, ◌+◌, ◌-◌, ◌*◌, ◌/◌, ◌%◌, ◌^◌, ◌≤◌, ◌<◌, ◌≡◌, ◌∙◌, if_true, update, ◌≢◌, ◌⊎◌,
  ==_self, ==_ne, refl, ltb, leb, ◌==◌, ◌&&◌, if◌then◌else◌, Bool-cases, inl, inr, arith, ok, fault,
  lt→ltb,
}
use ze_os_filesystem.Fat.{Disk, Buffer, FileSystem, fat_size}
use ze_os_filesystem.Fat.Boot.{dword_at}
use ze_os_filesystem.Fat.Entry.{write_bytes, dword_bytes}
use ze_os_filesystem.Fat.Table.{fill_sector, copy_fat_to_disk}

dword_at-write :
    (b : Buffer) (x i k : ℕ)
    → dword_at (write_bytes b (i * 4 - 0) (dword_bytes x)) (k * 4)
      ≡ (if k == i then x % 2 ^ 32 else dword_at b (k * 4))
unfolding write_bytes
dword_at-write b x i k = elim (Bool-cases (k == i)) [
  | inl hit ↦ rw hit (ground arith)
  | inr miss ↦ rw miss (ground arith)
]

-- From entry 0 on the buffer takes each entry at four times its index.
fill_sector-dword :
    (fat : ℕ → ℕ) (n i : ℕ) (b : Buffer)
    → i + n ≤ 128
    → (b' : Buffer) × (fill_sector n i 0 fat b ≡ ok b')
      × ((k : ℕ)
          → dword_at b' (k * 4)
            ≡ (if leb i k && ltb k (i + n) then fat k % 2 ^ 32 else dword_at b (k * 4)))
unfolding fill_sector
fill_sector-dword fat zero i b h = (b, refl, λ k. ground arith)
fill_sector-dword fat (suc n) i b h =
    let next = write_bytes b (i * 4 - 0) (dword_bytes (fat i)) in
    let (b', e, at) = fill_sector-dword fat n (i + 1) next (omega arith) in
    (
      b',
      rw (lt→ltb i fat_size (omega arith), lt→ltb (i * 4 + 3 - 0) 512 (omega arith)) e,
      λ k. ground (arith, at k, dword_at-write b (fat i) i k),
    )

-- Given a cluster below 128, so one of the first sector of the table: `copyFATtoDisk` succeeds,
-- changes the disk alone, puts the 128 entries of that sector, modulo 2 ^ 32, into the first sector
-- of the table on disk, and changes no other sector.
pub copy_fat_to_disk_first :
    (stack : Buffer) (cluster : ℕ) (fs : FileSystem)
    → cluster < 128
    → (disk' : Disk) × (copy_fat_to_disk stack cluster fs ≡ ok (record fs { disk = disk' }))
      × ((k : ℕ) → k < 128 → dword_at (disk' fs.bpb.reserved_sectors) (k * 4) ≡ fs.fat k % 2 ^ 32)
      × ((block : ℕ) → block ≢ fs.bpb.reserved_sectors → disk' block ≡ fs.disk block)
unfolding copy_fat_to_disk
copy_fat_to_disk_first stack cluster fs h =
    let (b, e, at) = fill_sector-dword fs.fat 128 0 stack (omega arith) in
    let start : cluster - cluster % 128 ≡ 0 = omega arith in
    let sector : fs.bpb.reserved_sectors + cluster * 4 / 512 ≡ fs.bpb.reserved_sectors =
      omega arith in
    (
      update fs.disk fs.bpb.reserved_sectors b,
      rw (start, e, sector) refl,
      λ k p.
          rw (==_self fs.bpb.reserved_sectors)
            (at k ∙ if_true (fs.fat k % 2 ^ 32) (dword_at stack (k * 4)) (ground arith)),
      λ block p. rw (==_ne block fs.bpb.reserved_sectors p) refl,
    )

-- The index of the store runs away from the buffer: entry i goes to i * 4 - start, not to
-- (i - start) * 4.
fill_sector_fault :
    (fat : ℕ → ℕ) (n i start : ℕ) (b : Buffer)
    → i + n ≤ fat_size
    → 513 + start ≤ (i + n) * 4
    → (0 < n) ⊎ (i * 4 < 513 + start)
    → fill_sector n i start fat b ≡ fault
unfolding fill_sector
fill_sector_fault fat zero i start b p q (inl r) = absurd (omega arith)
fill_sector_fault fat zero i start b p q (inr r) = absurd (omega arith)
fill_sector_fault fat (suc n) i start b p q r =
    rw (lt→ltb i fat_size (omega arith)) (elim (Bool-cases (ltb (i * 4 + 3 - start) 512)) [
      | inl inside ↦
          rw inside (
            fill_sector_fault fat n (i + 1) start _ (omega arith) (omega arith)
              (inr (ground arith)))
      | inr outside ↦ rw outside refl
    ])

-- Given a cluster of the table from 128 on, `copyFATtoDisk` writes outside its buffer of 512 bytes.
pub copy_fat_to_disk_overflow :
    (stack : Buffer) (cluster : ℕ) (fs : FileSystem)
    → 128 ≤ cluster
    → cluster < fat_size
    → copy_fat_to_disk stack cluster fs ≡ fault
unfolding copy_fat_to_disk
copy_fat_to_disk_overflow stack cluster fs h small =
    let start = cluster - cluster % 128 in
    rw
      (fill_sector_fault fs.fat 128 start start stack (omega arith) (omega arith)
        (inl (omega arith)))
      refl
