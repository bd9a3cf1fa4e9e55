-- ===== src/Fat/Path.antt =====
-- Paths and file names: `extractFilename` and `compareFilename` of file-system/fat32.c. A C string
-- is the list of its bytes before the terminating zero.
pub mod Components
use ze_os_filesystem.Base.{
  ℕ, zero, suc, ◌≡◌, Bool, true, false, ◌&&◌, ◌==◌, if◌then◌else◌, Option, none, some, List, [],
  ◌∷◌, replicate,
}

abbrev pub name_length : ℕ
name_length = 11

-- The first loop: past `search_pos` slashes, or `none` where the string ends before.
skip_slashes : List ℕ → ℕ → Option (List ℕ)
skip_slashes path zero = some path
skip_slashes [] (suc n) = none
skip_slashes (c ∷ path) (suc n) = skip_slashes path (if c == b'/' then n else suc n)

-- The second loop: the bytes up to a slash, the end, or the limit, over a name of blanks.
copy_name : ℕ → List ℕ → List ℕ
copy_name zero path = []
copy_name (suc n) [] = replicate (suc n) b' '
copy_name (suc n) (c ∷ path) = if c == b'/' then replicate (suc n) b' ' else c ∷ copy_name n path

-- `none` is the result -1.
unfoldable pub extract_filename : List ℕ → ℕ → Option (List ℕ)
unfolding skip_slashes copy_name
extract_filename path search_pos = elim (skip_slashes path search_pos) [
  | none ↦ none
  | some rest ↦ some (copy_name name_length rest)
]

-- The comparison of the first `n` bytes; a name shorter than that is read as zeros.
compare_bytes : ℕ → List ℕ → List ℕ → Bool
compare_bytes zero xs ys = true
compare_bytes (suc n) (x ∷ xs) (y ∷ ys) = (x == y) && compare_bytes n xs ys
compare_bytes (suc n) [] (y ∷ ys) = (0 == y) && compare_bytes n [] ys
compare_bytes (suc n) (x ∷ xs) [] = (x == 0) && compare_bytes n xs []
compare_bytes (suc n) [] [] = true

unfoldable pub compare_filename : List ℕ → List ℕ → Bool
unfolding compare_bytes
compare_filename path1 path2 = compare_bytes name_length path1 path2
