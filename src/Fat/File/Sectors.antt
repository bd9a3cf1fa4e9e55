-- ===== src/Fat/File/Sectors.antt =====
-- The disk as one run of bytes, as the loops of `writeFile` and `readFile` see it.
use ze_os_filesystem.Base.{
  ℕ, zero, suc, ◌+◌, ◌-◌, ◌*◌, ◌/◌, ◌%◌, ◌^◌, ◌≤◌, ◌<◌, ◌≡◌, refl, ltb, leb, ◌&&◌, ◌==◌,
  if◌then◌else◌, arith, List, [], ◌∷◌, length, update, get_or, slice, ok, Bool-cases, inl, inr,
  lt→ltb, ==_iff, ap, ◌∙◌, some,
}
use ze_os_filesystem.Fat.{Buffer, Disk, Bpb, FileSystem}
use ze_os_filesystem.Fat.File.{
  Cursor, next_sector, advance_write, put_byte, write_loop, advance_read, read_loop,
}

-- The byte at an address, in sectors of 512 bytes.
abbrev pub byte_at : Disk → ℕ → ℕ
byte_at d a = d (a / 512) (a % 512)

-- What the disk will hold once the buffer is written back, and the address of the next byte.
abbrev pub pending : Cursor → FileSystem → Disk
pending c fs = update fs.disk c.disk_sector c.buffer

abbrev pub position : Cursor → ℕ
position c = c.disk_sector * 512 + c.sector_it

-- A disk that differs from `d` by the bytes `xs` from address `a` on.
abbrev pub patched : Disk → ℕ → List ℕ → ℕ → ℕ
patched d a xs k = if leb a k && ltb k (a + length xs) then get_or xs (k - a) 0 else byte_at d k

get_or-cons :
    (x : ℕ) (xs : List ℕ) (k : ℕ)
    → get_or (x ∷ xs) k 0 ≡ (if k == 0 then x else get_or xs (k - 1) 0)
get_or-cons x xs zero = refl
get_or-cons x xs (suc k) = ground arith

-- One byte is put, and the rest behind it.
patched-cons :
    (d e e' : Disk) (a a' k x : ℕ) (xs : List ℕ)
    → a' ≡ a + 1
    → byte_at e' k ≡ (if k == a then x else byte_at e k)
    → byte_at e k ≡ byte_at d k
    → patched e' a' xs k ≡ patched d a (x ∷ xs) k
patched-cons d e e' a a' k x xs next h same = ground (arith, get_or-cons x xs (k - a))

-- A cursor inside the sectors of a cluster and the one that lies behind it on disk, with `n` bytes
-- to go.
pub record InCluster (b : Bpb) (c : Cursor) (n : ℕ) : Type 0 where
  pub sector_size : b.bytes_per_sector ≡ 512
  pub in_sector : c.sector_it ≤ 512
  pub room : c.sector_num * 512 + c.sector_it + n ≤ (b.sectors_per_cluster + 1) * 512
  pub no_wrap : c.disk_sector + b.sectors_per_cluster < 2 ^ 32 + c.sector_num

-- The end of a sector inside the cluster: the buffer is saved and the next sector read, so nothing
-- pending is lost.
turn_page :
    (stack start n : ℕ) (b : Bpb) (c : Cursor) (fs : FileSystem)
    → InCluster b c (suc n)
    → (c' : Cursor) × (d : Disk) × ((if c.sector_it == b.bytes_per_sector
          then advance_write stack b start c fs
          else ok (c, fs))
        ≡ ok (c', record fs { disk = d }))
      × InCluster b c' (suc n)
      × (c'.sector_it < 512)
      × (position c' ≡ position c)
      × ((k : ℕ) → byte_at (update d c'.disk_sector c'.buffer) k ≡ byte_at (pending c fs) k)
unfolding advance_write next_sector
turn_page stack start n b c fs i = elim (Bool-cases (c.sector_it == b.bytes_per_sector)) [
  | inl end ↦
      let full : c.sector_it ≡ 512 = (==_iff _ _).0 end ∙ i.sector_size in
      let more : c.sector_num < b.sectors_per_cluster + c.below = omega (arith, i.room) in
      let sector : (c.disk_sector + 1) % 2 ^ 32 ≡ c.disk_sector + 1 = omega (arith, i.no_wrap) in
      let d = pending c fs in
      (
        record c {
          sector_num = c.sector_num + 1;
          disk_sector = c.disk_sector + 1;
          sector_it = 0;
          buffer = d (c.disk_sector + 1);
        },
        d,
        rw (end, lt→ltb _ _ more, sector) refl,
        record {
          sector_size = i.sector_size;
          in_sector = omega arith;
          room = omega (arith, i.room);
          no_wrap = omega (arith, i.no_wrap);
        },
        omega arith,
        omega arith,
        λ k. ground arith,
      )
  | inr inside ↦
      (c, fs.disk, rw inside refl, i, ground (arith, i.sector_size, i.in_sector), refl, λ k. refl)
]

-- A byte is put into the buffer, and so at the cursor's address on the pending disk.
put_byte_lem :
    (x k : ℕ) (d : Disk) (c : Cursor)
    → c.sector_it < 512
    → byte_at (update d c.disk_sector (put_byte x c).buffer) k
      ≡ (if k == position c then x else byte_at (update d c.disk_sector c.buffer) k)
unfolding put_byte
put_byte_lem x k d c h = ground arith

put_byte-InCluster :
    (x n : ℕ) (b : Bpb) (c : Cursor)
    → InCluster b c (suc n)
    → c.sector_it < 512
    → InCluster b (put_byte x c) n
unfolding put_byte
put_byte-InCluster x n b c i small = record {
  sector_size = i.sector_size;
  in_sector = omega arith;
  room = omega (arith, i.room);
  no_wrap = i.no_wrap;
}

pending-put_byte :
    (x k : ℕ) (xs : List ℕ) (d e : Disk) (a : ℕ) (c : Cursor) (fs : FileSystem)
    → c.sector_it < 512
    → position c ≡ a
    → byte_at (update e c.disk_sector c.buffer) k ≡ byte_at d k
    → patched (pending (put_byte x c) (record fs { disk = e })) (position (put_byte x c)) xs k
      ≡ patched d a (x ∷ xs) k
unfolding put_byte
pending-put_byte x k xs d e a c fs small same keep =
    patched-cons d (update e c.disk_sector c.buffer)
      (update e c.disk_sector (update c.buffer c.sector_it x)) a
      (c.disk_sector * 512 + (c.sector_it + 1)) k x xs (omega arith)
      (rw (← same) (put_byte_lem x k e c small)) keep

module _ (stack : ℕ → ℕ) (start : ℕ) (b : Bpb) where
  pub write_loop-patched :
      (xs : List ℕ) (c : Cursor) (fs : FileSystem)
      → InCluster b c (length xs)
      → (c' : Cursor) × (d : Disk) × (write_loop stack b start xs c fs
          ≡ ok (c', record fs { disk = d }))
        × ((k : ℕ)
            → byte_at (update d c'.disk_sector c'.buffer) k
              ≡ patched (pending c fs) (position c) xs k)
  unfolding write_loop
  write_loop-patched [] c fs i = (c, fs.disk, refl, λ k. ground arith)
  write_loop-patched (x ∷ xs) c fs i =
      let (c1, d1, e1, i1, small, same, keep) =
        turn_page (stack (length xs)) start (length xs) b c fs i in
      let (c', d, e, at) =
        write_loop-patched xs (put_byte x c1) (record fs { disk = d1 })
          (put_byte-InCluster x (length xs) b c1 i1 small) in
      (
        c',
        d,
        rw e1 e,
        λ k.
            at k ∙ pending-put_byte x k xs (pending c fs) d1 (position c) c1 fs small same (keep k),
      )

-- The same for `readFile`.
turn_page_read :
    (n : ℕ) (b : Bpb) (c : Cursor) (fs : FileSystem)
    → InCluster b c (suc n)
    → c.buffer ≡ fs.disk c.disk_sector
    → (c' : Cursor) × ((if c.sector_it == b.bytes_per_sector
          then advance_read b c fs
          else ok (some c))
        ≡ ok (some c'))
      × InCluster b c' (suc n)
      × (c'.sector_it < 512)
      × (position c' ≡ position c)
      × (c'.buffer ≡ fs.disk c'.disk_sector)
unfolding advance_read next_sector
turn_page_read n b c fs i is = elim (Bool-cases (c.sector_it == b.bytes_per_sector)) [
  | inl end ↦
      let full : c.sector_it ≡ 512 = (==_iff _ _).0 end ∙ i.sector_size in
      let more : c.sector_num < b.sectors_per_cluster + c.below = omega (arith, i.room) in
      let sector : (c.disk_sector + 1) % 2 ^ 32 ≡ c.disk_sector + 1 = omega (arith, i.no_wrap) in
      (
        record c {
          sector_num = c.sector_num + 1;
          disk_sector = c.disk_sector + 1;
          sector_it = 0;
          buffer = fs.disk (c.disk_sector + 1);
        },
        rw (end, lt→ltb _ _ more, sector) refl,
        record {
          sector_size = i.sector_size;
          in_sector = omega arith;
          room = omega (arith, i.room);
          no_wrap = omega (arith, i.no_wrap);
        },
        omega arith,
        omega arith,
        refl,
      )
  | inr inside ↦ (c, rw inside refl, i, ground (arith, i.sector_size, i.in_sector), refl, is)
]

step-InCluster :
    (n : ℕ) (b : Bpb) (c : Cursor)
    → InCluster b c (suc n)
    → c.sector_it < 512
    → InCluster b (record c { sector_it = c.sector_it + 1 }) n
step-InCluster n b c i small = record {
  sector_size = i.sector_size;
  in_sector = omega arith;
  room = omega (arith, i.room);
  no_wrap = i.no_wrap;
}

byte_at-position : (d : Disk) (s j a : ℕ) → j < 512 → s * 512 + j ≡ a → d s j ≡ byte_at d a
byte_at-position d s j a h e =
    let q : a / 512 ≡ s = omega arith in let r : a % 512 ≡ j = omega arith in rw (q, r) refl

slice-next :
    (f : ℕ → ℕ) (x a a' n : ℕ)
    → x ≡ f a
    → a' ≡ a + 1
    → ok (x ∷ slice f a' n) ≡ ok (slice f a (suc n))
slice-next f x a a' n p q = rw (p, q) refl

pub read_loop-slice :
    (b : Bpb) (n : ℕ) (c : Cursor) (fs : FileSystem)
    → InCluster b c n
    → c.buffer ≡ fs.disk c.disk_sector
    → read_loop b n c fs ≡ ok (slice (byte_at fs.disk) (position c) n)
unfolding read_loop
read_loop-slice b zero c fs i is = refl
read_loop-slice b (suc n) c fs i is =
    let (c1, e1, i1, small, same, is1) = turn_page_read n b c fs i is in
    let rest =
      read_loop-slice b n (record c1 { sector_it = c1.sector_it + 1 }) fs
        (step-InCluster n b c1 i1 small) is1 in
    let byte =
      ap (λ (f : Buffer). f c1.sector_it) is1
      ∙ byte_at-position fs.disk c1.disk_sector c1.sector_it (position c) small same in
    rw (e1, rest)
      (slice-next (byte_at fs.disk) _ (position c) (c1.disk_sector * 512 + (c1.sector_it + 1)) n
        byte (omega (arith, same)))
