-- ===== src/Fat/Entry/Roundtrip.antt =====
-- What is read back from a directory entry that has been written, and what is left alone.
use ze_os_filesystem.Base.{
  ℕ, zero, suc, ◌+◌, ◌*◌, ◌/◌, ◌%◌, ◌^◌, ◌≡◌, ◌≤◌, ◌<◌, ◌⊎◌, ◌↔◌, subst, refl, ap, ◌∙◌, ◌==◌, true,
  List, [], ◌∷◌, length, slice, update, arith,
}
use ze_os_filesystem.Fat.{Buffer, DirectoryEntry, fat_size}
use ze_os_filesystem.Fat.Path.{name_length}
use ze_os_filesystem.Fat.Entry.{
  char_to_word, char_to_dword, first_cluster, word_bytes, dword_bytes, get_directory_entry,
  write_bytes, exactly, set_directory_entry,
}

pub write_bytes_outside :
    (xs : List ℕ) (b : Buffer) (i j : ℕ)
    → (j < i) ⊎ (i + length xs ≤ j)
    → write_bytes b i xs j ≡ b j
unfolding write_bytes
write_bytes_outside [] b i j h = refl
write_bytes_outside (x ∷ xs) b i j h =
    ground (arith, write_bytes_outside xs (update b i x) (i + 1) j)

pub slice_agree :
    (f g : Buffer) (i n : ℕ) → ((j : ℕ) → i ≤ j → j < i + n → f j ≡ g j) → slice f i n ≡ slice g i n
slice_agree f g i zero h = refl
slice_agree f g i (suc n) h =
    ground (arith, h i, slice_agree f g (i + 1) n (λ j p q. h j (omega arith) (omega arith)))

pub slice-write_bytes :
    (xs : List ℕ) (b : Buffer) (i : ℕ) → slice (write_bytes b i xs) i (length xs) ≡ xs
unfolding write_bytes
slice-write_bytes [] b i = refl
slice-write_bytes (x ∷ xs) b i = ground (
  arith,
  write_bytes_outside xs (update b i x) (i + 1) i,
  slice-write_bytes xs (update b i x) (i + 1),
)

exactly-length : (n : ℕ) (xs : List ℕ) → length xs ≡ n → exactly n xs ≡ xs
unfolding exactly
exactly-length zero [] p = refl
exactly-length zero (x ∷ xs) p = absurd (omega arith)
exactly-length (suc n) [] p = absurd (omega arith)
exactly-length (suc n) (x ∷ xs) p = ap (◌∷◌ x) (exactly-length n xs (omega arith))

pub length-exactly : (n : ℕ) (xs : List ℕ) → length (exactly n xs) ≡ n
unfolding exactly
length-exactly zero xs = refl
length-exactly (suc n) [] = ap suc (length-exactly n [])
length-exactly (suc n) (x ∷ xs) = ap suc (length-exactly n xs)

-- Writing an entry at an offset changes no byte outside its 32 bytes, nor the bytes of the fields
-- that the code does not keep (12 to 19 and 22 to 25).
pub set_directory_entry_frame :
    (s : Buffer) (e : DirectoryEntry) (offset j : ℕ)
    → (j < offset)
      ⊎ ((offset + 12 ≤ j) × (j < offset + 20))
      ⊎ ((offset + 22 ≤ j) × (j < offset + 26))
      ⊎ (offset + 32 ≤ j)
    → set_directory_entry s e offset j ≡ s j
unfolding set_directory_entry
set_directory_entry_frame s e offset j h =
    let named = write_bytes s offset (exactly name_length e.filename) in
    let kind = write_bytes named (0x0B + offset) (e.attributes ∷ []) in
    let high = write_bytes kind (0x14 + offset) (word_bytes e.first_cluster_hi) in
    let low = write_bytes high (0x1A + offset) (word_bytes e.first_cluster_lo) in
    let k = length-exactly name_length e.filename in
    write_bytes_outside (dword_bytes e.size) low (0x1C + offset) j (omega arith)
    ∙ write_bytes_outside (word_bytes e.first_cluster_lo) high (0x1A + offset) j (omega arith)
    ∙ write_bytes_outside (word_bytes e.first_cluster_hi) kind (0x14 + offset) j (omega arith)
    ∙ write_bytes_outside (e.attributes ∷ []) named (0x0B + offset) j (omega arith)
    ∙ write_bytes_outside (exactly name_length e.filename) s offset j (omega (arith, k))

write_bytes_first : (x : ℕ) (xs : List ℕ) (b : Buffer) (i : ℕ) → write_bytes b i (x ∷ xs) i ≡ x
unfolding write_bytes
write_bytes_first x xs b i = ground (arith, write_bytes_outside xs (update b i x) (i + 1) i)

-- The bytes of a written sector at the places that `getDirectoryEntry` reads.
module _ (s : Buffer) (e : DirectoryEntry) (offset : ℕ) where
  named : Buffer
  named = write_bytes s offset (exactly name_length e.filename)

  kind : Buffer
  unfolding named
  kind = write_bytes named (0x0B + offset) (e.attributes ∷ [])

  high : Buffer
  unfolding kind
  high = write_bytes kind (0x14 + offset) (word_bytes e.first_cluster_hi)

  low : Buffer
  unfolding high
  low = write_bytes high (0x1A + offset) (word_bytes e.first_cluster_lo)

  size_at : set_directory_entry s e offset (0x1C + offset) ≡ e.size % 256
  unfolding set_directory_entry low
  size_at = write_bytes_first _ _ low (0x1C + offset) ∙ omega arith

  low_at : set_directory_entry s e offset (0x1A + offset) ≡ e.first_cluster_lo % 256
  unfolding set_directory_entry low
  low_at =
      write_bytes_outside (dword_bytes e.size) low (0x1C + offset) (0x1A + offset) (omega arith)
      ∙ write_bytes_first _ _ high (0x1A + offset)
      ∙ omega arith

  before_low : (j : ℕ) → j < offset + 0x1A → set_directory_entry s e offset j ≡ high j
  unfolding set_directory_entry low
  before_low j h =
      write_bytes_outside (dword_bytes e.size) low (0x1C + offset) j (omega arith)
      ∙ write_bytes_outside (word_bytes e.first_cluster_lo) high (0x1A + offset) j (omega arith)

  high_at : set_directory_entry s e offset (0x14 + offset) ≡ e.first_cluster_hi % 256
  unfolding high
  high_at =
      before_low (0x14 + offset) (omega arith)
      ∙ write_bytes_first _ _ kind (0x14 + offset)
      ∙ omega arith

  kind_at : set_directory_entry s e offset (0x0B + offset) ≡ e.attributes
  unfolding high
  kind_at =
      before_low (0x0B + offset) (omega arith)
      ∙ write_bytes_outside (word_bytes e.first_cluster_hi) kind (0x14 + offset) (0x0B + offset)
          (omega arith)
      ∙ write_bytes_first _ _ named (0x0B + offset)

  name_at : (j : ℕ) → j < offset + name_length → set_directory_entry s e offset j ≡ named j
  unfolding high
  name_at j h =
      before_low j (omega arith)
      ∙ write_bytes_outside (word_bytes e.first_cluster_hi) kind (0x14 + offset) j (omega arith)
      ∙ write_bytes_outside (e.attributes ∷ []) named (0x0B + offset) j (omega arith)

  names_at :
      length e.filename ≡ name_length
      → slice (set_directory_entry s e offset) offset name_length ≡ e.filename
  unfolding named
  names_at h =
      slice_agree (set_directory_entry s e offset) named offset name_length (λ j p q. name_at j q)
      ∙ rw (exactly-length name_length e.filename h) (
          subst (λ n. slice (write_bytes s offset e.filename) offset n ≡ e.filename) h
            (slice-write_bytes e.filename s offset))

-- What `getDirectoryEntry` reads back of an entry written at a multiple of 32, with a name of 11
-- bytes: the name and the attributes as they were, and of the two halves of the cluster and of the
-- size the lowest byte only, extended by its sign.
pub get_directory_entry-set :
    (s : Buffer) (e old : DirectoryEntry) (offset : ℕ)
    → offset % 32 ≡ 0
    → length e.filename ≡ name_length
    → let r = get_directory_entry (set_directory_entry s e offset) old offset in
      (r.filename ≡ e.filename)
      × (r.attributes ≡ e.attributes)
      × (r.first_cluster_hi ≡ char_to_word (e.first_cluster_hi % 256))
      × (r.first_cluster_lo ≡ char_to_word (e.first_cluster_lo % 256))
      × (r.size ≡ char_to_dword (e.size % 256))
unfolding get_directory_entry
get_directory_entry-set s e old offset aligned h =
    let o : (offset % 32 == 0) ≡ true = ground arith in
    rw o (
      names_at s e offset h,
      kind_at s e offset,
      rw (high_at s e offset) refl,
      rw (low_at s e offset) refl,
      rw (size_at s e offset) refl,
    )

halves :
    (h l c : ℕ)
    → c < fat_size
    → h ≡ char_to_word ((c / 2 ^ 16) % 2 ^ 16 % 256)
    → l ≡ char_to_word (c % 2 ^ 16 % 256)
    → (h * 2 ^ 16 + l ≡ c) ↔ (c < 128)
halves h l c small p q = ground arith

-- Given an entry with a name of 11 bytes that stores a cluster of the table in its two halves, and
-- that is written at a multiple of 32: the cluster that is read back from it is the same exactly if
-- it is below 128.
pub first_cluster-set_iff :
    (s : Buffer) (e old : DirectoryEntry) (offset cluster : ℕ)
    → offset % 32 ≡ 0
    → length e.filename ≡ name_length
    → cluster < fat_size
    → e.first_cluster_lo ≡ cluster % 2 ^ 16
    → e.first_cluster_hi ≡ (cluster / 2 ^ 16) % 2 ^ 16
    → (first_cluster (get_directory_entry (set_directory_entry s e offset) old offset) ≡ cluster)
      ↔ (cluster < 128)
unfolding first_cluster
first_cluster-set_iff s e old offset cluster aligned h small lo hi =
    let (_, _, rhi, rlo, _) = get_directory_entry-set s e old offset aligned h in
    halves _ _ cluster small (rhi ∙ ap (λ x. char_to_word (x % 256)) hi)
      (rlo ∙ ap (λ x. char_to_word (x % 256)) lo)
