-- ===== src/Sys/Path/Arrays.antt =====
-- Reading back the arrays of `split_filename` of zeos_full/sys.c.
use ze_os_filesystem.Base.{
  ℕ, zero, suc, ◌+◌, ◌≤◌, ◌<◌, ◌≡◌, ◌≢◌, refl, List, [], ◌∷◌, ◌++◌, arith, length, replicate,
  get_or, ◌∉◌, update, ap, ◌∙◌, ok, ==_ne, subst, inl,
}
use ze_os_filesystem.Fat.{Buffer}
use ze_os_filesystem.Fat.Entry.{write_bytes}
use ze_os_filesystem.Fat.Entry.Roundtrip.{write_bytes_outside}
use ze_os_filesystem.Sys.Path.{last_slash, c_string}

pub write_bytes_inside :
    (xs : List ℕ) (b : Buffer) (i j : ℕ)
    → j < length xs
    → write_bytes b i xs (i + j) ≡ get_or xs j 0
unfolding write_bytes
write_bytes_inside [] b i j h = absurd (omega arith)
write_bytes_inside (x ∷ xs) b i zero h =
    write_bytes_outside xs (update b i x) (i + 1) (i + 0) (inl (omega arith)) ∙ ground arith
write_bytes_inside (x ∷ xs) b i (suc j) h =
    let place : i + suc j ≡ i + 1 + j = omega arith in
    rw place (write_bytes_inside xs (update b i x) (i + 1) j (omega arith))

pub get_or-left : (xs ys : List ℕ) (j : ℕ) → j < length xs → get_or (xs ++ ys) j 0 ≡ get_or xs j 0
get_or-left [] ys j h = absurd (omega arith)
get_or-left (x ∷ xs) ys zero h = refl
get_or-left (x ∷ xs) ys (suc j) h = get_or-left xs ys j (omega arith)

pub get_or-right : (xs ys : List ℕ) (j : ℕ) → get_or (xs ++ ys) (length xs + j) 0 ≡ get_or ys j 0
get_or-right [] ys j = let same : 0 + j ≡ j = omega arith in rw same refl
get_or-right (x ∷ xs) ys j =
    let next : suc (length xs) + j ≡ suc (length xs + j) = omega arith in
    rw next (get_or-right xs ys j)

pub get_or_ne : (c : ℕ) (xs : List ℕ) (j : ℕ) → c ∉ xs → j < length xs → get_or xs j 0 ≢ c
get_or_ne c [] j out h = absurd (omega arith)
get_or_ne c (x ∷ xs) zero out h = ground arith
get_or_ne c (x ∷ xs) (suc j) out h = get_or_ne c xs j (ground arith) (omega arith)

-- The search goes down from `i + m` and ends at the first slash that it meets.
pub last_slash-found :
    (b : Buffer) (i m : ℕ)
    → b i ≡ b'/'
    → ((k : ℕ) → i < k → k ≤ i + m → b k ≢ b'/')
    → last_slash b (i + m) ≡ ok i
unfolding last_slash
last_slash-found b zero zero here above = rw here refl
last_slash-found b (suc i) zero here above =
    let same : suc i + 0 ≡ suc i = omega arith in rw (same, last_slash, here) refl
last_slash-found b i (suc m) here above =
    let next : i + suc m ≡ suc (i + m) = omega arith in
    rw
      (
        next,
        last_slash,
        ==_ne (b (suc (i + m))) b'/' (above (suc (i + m)) (omega arith) (omega arith)),
      )
      (last_slash-found b i m here (λ k p q. above k p (omega arith)))

-- A string without zeros, with a zero behind it.
pub c_string-found :
    (xs : List ℕ) (b : Buffer) (n i : ℕ)
    → ((j : ℕ) → j < length xs → b (i + j) ≡ get_or xs j 0)
    → 0 ∉ xs
    → b (i + length xs) ≡ 0
    → length xs < n
    → c_string b n i ≡ xs
unfolding c_string
c_string-found xs b zero i at live end room = absurd (omega arith)
c_string-found [] b (suc n) i at live end room =
    let place : i + 0 ≡ i = omega arith in rw (rw place at end) refl
c_string-found (x ∷ xs) b (suc n) i at live end room =
    let place : i + 0 ≡ i = omega arith in
    let first : b i ≡ x = subst (λ k. b k ≡ x) place (at 0 (omega arith)) in
    let some_byte : x ≢ 0 = ground arith in
    let rest =
      c_string-found xs b n (i + 1)
        (λ j p. let e : i + 1 + j ≡ i + suc j = omega arith in rw e (at (suc j) (omega arith)))
        (ground arith) (let e : i + 1 + length xs ≡ i + suc (length xs) = omega arith in rw e end)
        (omega arith) in
    rw (first, ==_ne x 0 some_byte, rest) refl

pub replicate-end : (k c : ℕ) → replicate (suc k) c ≡ replicate k c ++ c ∷ []
replicate-end zero c = refl
replicate-end (suc k) c = ap (λ r. c ∷ r) (replicate-end k c)
