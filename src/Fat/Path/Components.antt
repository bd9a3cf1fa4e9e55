-- ===== src/Fat/Path/Components.antt =====
-- What `extractFilename` and `compareFilename` say of a path that is put together from components.
use ze_os_filesystem.Base.{
  ℕ, zero, suc, ◌≡◌, refl, ◌↔◌, ap, true, some, List, [], ◌∷◌, ◌++◌, map, arith, length, replicate,
  get_elem?, All, ◌∉◌,
}
use ze_os_filesystem.Fat.Path.{
  name_length, skip_slashes, copy_name, extract_filename, compare_bytes, compare_filename,
}

-- `/a/b/c` from its components.
unfoldable pub join : List (List ℕ) → List ℕ
join [] = []
join (n ∷ ns) = b'/' ∷ (n ++ join ns)

-- A name filled with blanks to `k` bytes, or cut there.
unfoldable pub pad : ℕ → List ℕ → List ℕ
pad zero n = []
pad (suc k) [] = replicate (suc k) b' '
pad (suc k) (c ∷ n) = c ∷ pad k n

abbrev pub NoSlash : List ℕ → Type 0
NoSlash n = b'/' ∉ n

skip_slashes-append :
    (n rest : List ℕ) (k : ℕ)
    → NoSlash n
    → skip_slashes (n ++ rest) (suc k) ≡ skip_slashes rest (suc k)
unfolding skip_slashes
skip_slashes-append [] rest k h = refl
skip_slashes-append (c ∷ n) rest k h = ground (arith, skip_slashes-append n rest k)

copy_name-join :
    (k : ℕ) (n : List ℕ) (ns : List (List ℕ)) → NoSlash n → copy_name k (n ++ join ns) ≡ pad k n
unfolding copy_name join pad
copy_name-join zero n ns h = refl
copy_name-join (suc k) [] [] h = refl
copy_name-join (suc k) [] (m ∷ ns) h = refl
copy_name-join (suc k) (c ∷ n) ns h = ground (arith, copy_name-join k n ns)

-- Given a path of components without slashes, `extractFilename` at position k + 1 gives the k-th
-- component, filled with blanks or cut to 11 bytes, and fails exactly where there is none.
pub extract_filename-join :
    (ns : List (List ℕ)) (k : ℕ)
    → All NoSlash ns
    → extract_filename (join ns) (suc k) ≡ get_elem? (map (pad name_length) ns) k
unfolding extract_filename join
extract_filename-join [] k h = refl
extract_filename-join (n ∷ ns) zero h = ap some (copy_name-join name_length n ns h.0)
extract_filename-join (n ∷ ns) (suc k) h =
    rw (skip_slashes-append n (join ns) k h.0, extract_filename) (extract_filename-join ns k h.1)

pub length-pad : (k : ℕ) (n : List ℕ) → length (pad k n) ≡ k
unfolding pad
length-pad zero n = refl
length-pad (suc zero) [] = refl
length-pad (suc (suc k)) [] = ap suc (length-pad (suc k) [])
length-pad (suc k) (c ∷ n) = ap suc (length-pad k n)

compare_bytes_iff :
    (k : ℕ) (xs ys : List ℕ)
    → length xs ≡ k
    → length ys ≡ k
    → (compare_bytes k xs ys ≡ true) ↔ (xs ≡ ys)
unfolding compare_bytes
compare_bytes_iff zero [] [] p q = ground arith
compare_bytes_iff zero [] (y ∷ ys) p q = absurd (omega arith)
compare_bytes_iff zero (x ∷ xs) ys p q = absurd (omega arith)
compare_bytes_iff (suc k) [] ys p q = absurd (omega arith)
compare_bytes_iff (suc k) (x ∷ xs) [] p q = absurd (omega arith)
compare_bytes_iff (suc k) (x ∷ xs) (y ∷ ys) p q =
    let rest = compare_bytes_iff k xs ys (omega arith) (omega arith) in ground arith

-- On names of 11 bytes `compareFilename` says exactly whether they are equal.
pub compare_filename_iff :
    (xs ys : List ℕ)
    → length xs ≡ name_length
    → length ys ≡ name_length
    → (compare_filename xs ys ≡ true) ↔ (xs ≡ ys)
unfolding compare_filename
compare_filename_iff xs ys p q = compare_bytes_iff name_length xs ys p q
