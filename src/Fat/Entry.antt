-- ===== src/Fat/Entry.antt =====
-- Directory entries in a sector: `getDirectoryEntry` and `setDirectoryEntry` of
-- file-system/fat32.c. A sector is an array of `char`, which is signed: what is read from one into
-- a wider unsigned field is extended by its sign.
pub mod Roundtrip
use ze_os_filesystem.Base.{
  ℕ, zero, suc, ◌+◌, ◌*◌, ◌/◌, ◌%◌, ◌^◌, ltb, ◌==◌, if◌then◌else◌, List, [], ◌∷◌, slice, update,
}
use ze_os_filesystem.Fat.{Buffer, DirectoryEntry}
use ze_os_filesystem.Fat.Path.{name_length}

-- `(Word)c` and `(DWord)c` for a `char` c.
abbrev pub char_to_word : ℕ → ℕ
char_to_word c = if ltb c 128 then c else c + 0xFF00

abbrev pub char_to_dword : ℕ → ℕ
char_to_dword c = if ltb c 128 then c else c + 0xFFFF_FF00

abbrev pub byte_of : ℕ → ℕ → ℕ
byte_of x k = (x / 256 ^ k) % 256

-- `entry` holds what the caller's variable held: the fields that are not read keep it.
unfoldable pub get_directory_entry : Buffer → DirectoryEntry → ℕ → DirectoryEntry
get_directory_entry sector entry offset =
    let o = if offset % 32 == 0 then offset else 0 in
    record entry {
      filename = slice sector o name_length;
      attributes = sector (0x0B + o);
      first_cluster_hi = char_to_word (sector (0x14 + o));
      first_cluster_lo = char_to_word (sector (0x1A + o));
      size = char_to_dword (sector (0x1C + o));
    }

-- The bytes of `xs` from index `i` on.
unfoldable pub write_bytes : Buffer → ℕ → List ℕ → Buffer
write_bytes b i [] = b
write_bytes b i (x ∷ xs) = write_bytes (update b i x) (i + 1) xs

-- The loop copies 11 bytes; a name shorter than that is read as zeros.
unfoldable pub exactly : ℕ → List ℕ → List ℕ
exactly zero xs = []
exactly (suc n) [] = 0 ∷ exactly n []
exactly (suc n) (x ∷ xs) = x ∷ exactly n xs

-- The stores of a 16-bit and of a 32-bit value, byte by byte.
abbrev pub word_bytes : ℕ → List ℕ
word_bytes x = byte_of x 0 ∷ byte_of x 1 ∷ []

abbrev pub dword_bytes : ℕ → List ℕ
dword_bytes x = byte_of x 0 ∷ byte_of x 1 ∷ byte_of x 2 ∷ byte_of x 3 ∷ []

unfoldable pub set_directory_entry : Buffer → DirectoryEntry → ℕ → Buffer
unfolding exactly
set_directory_entry sector entry offset =
    let named = write_bytes sector offset (exactly name_length entry.filename) in
    let kind = write_bytes named (0x0B + offset) (entry.attributes ∷ []) in
    let high = write_bytes kind (0x14 + offset) (word_bytes entry.first_cluster_hi) in
    let low = write_bytes high (0x1A + offset) (word_bytes entry.first_cluster_lo) in
    write_bytes low (0x1C + offset) (dword_bytes entry.size)

-- The first cluster of an entry, from its two halves.
unfoldable pub first_cluster : DirectoryEntry → ℕ
first_cluster entry = entry.first_cluster_hi * 2 ^ 16 + entry.first_cluster_lo
