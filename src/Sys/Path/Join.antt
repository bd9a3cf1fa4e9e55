-- ===== src/Sys/Path/Join.antt =====
-- `split_filename` of zeos_full/sys.c on a path in a directory below the root.
use ze_os_filesystem.Base.{
  fault, ℕ, zero, suc, ◌+◌, ◌-◌, ◌*◌, ◌≤◌, ◌<◌, ◌≡◌, ◌≢◌, refl, ltb, List, [], ◌∷◌, ◌++◌, arith,
  length, length-append, replicate, get_or, slice, All, ◌∉◌, has-append, map, update, ap, sym, ◌∙◌,
  ok, ◌>>=◌, lt→ltb, ==_ne, subst, append_assoc, inl, inr, Bool-cases,
}
use ze_os_filesystem.Fat.{Buffer}
use ze_os_filesystem.Fat.Entry.{write_bytes}
use ze_os_filesystem.Fat.Entry.Roundtrip.{write_bytes_outside, slice-write_bytes, slice_agree}
use ze_os_filesystem.Fat.Path.Components.{join, pad, NoSlash, length-pad}
use ze_os_filesystem.Sys.Path.{
  PathBuffers, Split, directory_size, last_slash, c_string, split_filename,
}
use ze_os_filesystem.Sys.Path.Loop.{
  path_rest, written, Short, split_loop-written, write_bytes-append, pad_append,
}
use ze_os_filesystem.Sys.Path.Small.{split_filename-small}
use ze_os_filesystem.Sys.Path.Arrays.{
  write_bytes_inside, get_or-left, get_or-right, get_or_ne, last_slash-found, c_string-found,
  replicate-end,
}

-- The directory's string.
abbrev pub filled : List (List ℕ) → List ℕ
filled ds = join (map (pad 11) ds)

filled-written : (ds : List (List ℕ)) (n : List ℕ) → b'/' ∷ written ds n ≡ filled ds ++ b'/' ∷ n
unfolding written join
filled-written [] n = refl
filled-written (d ∷ ds) n =
    ap (λ r. b'/' ∷ r)
      (ap (λ r. pad 11 d ++ r) (filled-written ds n)
        ∙ sym (append_assoc (pad 11 d) (filled ds) (b'/' ∷ n)))

blanks_live : (k : ℕ) → 0 ∉ replicate k b' '
blanks_live zero = refl
blanks_live (suc k) = blanks_live k

pad_live : (k : ℕ) (d : List ℕ) → 0 ∉ d → 0 ∉ pad k d
unfolding pad
pad_live zero d h = refl
pad_live (suc k) [] h = blanks_live (suc k)
pad_live (suc k) (c ∷ d) h = ground (arith, pad_live k d)

filled_live : (ds : List (List ℕ)) → All (λ d. 0 ∉ d) ds → 0 ∉ filled ds
unfolding join
filled_live [] h = refl
filled_live (d ∷ ds) (live, h) =
    let parts = has-append 0 (filled ds) (pad 11 d) in
    let a = pad_live 11 d live in let b = filled_live ds h in ground arith

-- The last name, filled to 12 bytes in an array, as 11 bytes.
slice-name :
    (n : List ℕ) (file : Buffer)
    → length n ≤ 11
    → slice (write_bytes (write_bytes file 0 n) (length n) (replicate (12 - length n) b' ')) 0 11
      ≡ pad 11 n
slice-name n file small =
    let blanks = replicate (11 - length n) b' ' in
    let more : 12 - length n ≡ suc (11 - length n) = omega arith in
    let start : 0 + length n ≡ length n = omega arith in
    let total : n ++ replicate (12 - length n) b' ' ≡ pad 11 n ++ b' ' ∷ [] =
      ap (λ k. n ++ replicate k b' ') more
      ∙ ap (λ r. n ++ r) (replicate-end (11 - length n) b' ')
      ∙ sym (append_assoc n blanks (b' ' ∷ []))
      ∙ ap (λ r. r ++ b' ' ∷ []) (sym (pad_append 11 n small)) in
    let whole : write_bytes (write_bytes file 0 n) (length n) (replicate (12 - length n) b' ')
        ≡ write_bytes (write_bytes file 0 (pad 11 n)) (0 + length (pad 11 n)) (b' ' ∷ []) =
      ap (λ k. write_bytes (write_bytes file 0 n) k (replicate (12 - length n) b' ')) (sym start)
      ∙ sym (write_bytes-append n (replicate (12 - length n) b' ') file 0)
      ∙ ap (write_bytes file 0) total
      ∙ write_bytes-append (pad 11 n) (b' ' ∷ []) file 0 in
    ap (λ b. slice b 0 11) whole
    ∙ slice_agree _ (write_bytes file 0 (pad 11 n)) 0 11 (λ j p q.
      write_bytes_outside (b' ' ∷ []) (write_bytes file 0 (pad 11 n)) (0 + length (pad 11 n)) j
        (inl (omega (arith, length-pad 11 n))))
    ∙ subst (λ k. slice (write_bytes file 0 (pad 11 n)) 0 k ≡ pad 11 n) (length-pad 11 n)
        (slice-write_bytes (pad 11 n) file 0)

-- The directory array after the loop.
looped : Buffer → List (List ℕ) → List ℕ → Buffer
looped b ds n = write_bytes b 1 (written ds n)

length-written :
    (ds : List (List ℕ)) (n : List ℕ)
    → 1 + length (written ds n) ≡ length (filled ds) + suc (length n)
length-written ds n =
    let a = ap length (filled-written ds n) in
    omega (arith, a, length-append (filled ds) (b'/' ∷ n))

looped-inside :
    (b : Buffer) (ds : List (List ℕ)) (n : List ℕ) (j : ℕ)
    → 0 < j
    → j < length (filled ds) + suc (length n)
    → looped b ds n j ≡ get_or (filled ds ++ b'/' ∷ n) j 0
unfolding looped
looped-inside b ds n zero p q = absurd (omega arith)
looped-inside b ds n (suc j) p q =
    let place : suc j ≡ 1 + j = omega arith in
    ap (write_bytes b 1 (written ds n)) place
    ∙ write_bytes_inside (written ds n) b 1 j (omega (arith, length-written ds n))
    ∙ ap (λ r. get_or r (suc j) 0) (filled-written ds n)

looped-name :
    (b : Buffer) (ds : List (List ℕ)) (n : List ℕ) (k : ℕ)
    → length (filled ds) < k
    → k < length (filled ds) + suc (length n)
    → looped b ds n k ≡ get_or n (k - length (filled ds) - 1) 0
looped-name b ds n k p q =
    let j = k - length (filled ds) - 1 in
    let place : k ≡ length (filled ds) + suc j = omega arith in
    looped-inside b ds n k (omega arith) q
    ∙ ap (λ i. get_or (filled ds ++ b'/' ∷ n) i 0) place
    ∙ get_or-right (filled ds) (b'/' ∷ n) (suc j)

looped-behind :
    (b : Buffer) (ds : List (List ℕ)) (n : List ℕ)
    → let k = length (filled ds) + suc (length n) in looped b ds n k ≡ b k
unfolding looped
looped-behind b ds n =
    write_bytes_outside (written ds n) b 1 (length (filled ds) + suc (length n))
      (inr (omega (arith, length-written ds n)))

last_slash-looped :
    (b : Buffer) (ds : List (List ℕ)) (n : List ℕ)
    → 0 < length (filled ds)
    → NoSlash n
    → b (length (filled ds) + suc (length n)) ≢ b'/'
    → last_slash (looped b ds n) (length (filled ds) + suc (length n)) ≡ ok (length (filled ds))
unfolding looped
last_slash-looped b ds n some_name plain behind =
    let p = length (filled ds) in
    last_slash-found (looped b ds n) p (suc (length n))
      (let start : p ≡ p + 0 = omega arith in
        looped-inside b ds n p some_name (omega arith)
        ∙ ap (λ k. get_or (filled ds ++ b'/' ∷ n) k 0) start
        ∙ get_or-right (filled ds) (b'/' ∷ n) 0)
      (λ k above below. elim (Bool-cases (ltb k (p + suc (length n)))) [
        | inl inside ↦ λ e.
            get_or_ne b'/' n (k - p - 1) plain (ground arith)
              (sym (looped-name b ds n k above (ground arith)) ∙ e)
        | inr end ↦
            let place : p + suc (length n) ≡ k = ground arith in
            subst (λ i. looped b ds n i ≢ b'/') place (λ e. behind (sym (looped-behind b ds n) ∙ e))
      ])

strung :
    (b : Buffer) (d : List ℕ) (ds : List (List ℕ)) (n : List ℕ) (j : ℕ)
    → j < length (filled (d ∷ ds))
    → update (update (looped b (d ∷ ds) n) (length (filled (d ∷ ds))) 0) 0 b'/' (0 + j)
      ≡ get_or (filled (d ∷ ds)) j 0
unfolding join
strung b d ds n zero p = refl
strung b d ds n (suc j) p =
    let place : 0 + suc j ≡ suc j = omega arith in
    rw
      (place, ==_ne (suc j) 0 (omega arith), ==_ne (suc j) (length (filled (d ∷ ds))) (omega arith))
      (looped-inside b (d ∷ ds) n (suc j) (omega arith) (omega arith)
        ∙ get_or-left (filled (d ∷ ds)) (b'/' ∷ n) (suc j) p)

length-filled : (ds : List (List ℕ)) → length (filled ds) ≡ 12 * length ds
unfolding join
length-filled [] = refl
length-filled (d ∷ ds) =
    omega (arith, length-append (pad 11 d) (filled ds), length-pad 11 d, length-filled ds)

c_string-looped :
    (b : Buffer) (d : List ℕ) (ds : List (List ℕ)) (n : List ℕ)
    → All (λ d. 0 ∉ d) (d ∷ ds)
    → length (filled (d ∷ ds)) < directory_size
    → c_string
        (update (update (looped b (d ∷ ds) n) (length (filled (d ∷ ds))) 0) 0 b'/')
        directory_size
        0
      ≡ filled (d ∷ ds)
unfolding join
c_string-looped b d ds n live room =
    c_string-found (filled (d ∷ ds)) _ directory_size 0 (strung b d ds n)
      (filled_live (d ∷ ds) live) (ground arith) room

split_filename-wide :
    (size : ℕ) (buffers : PathBuffers) (c : ℕ) (d : List ℕ) (ds : List (List ℕ)) (n : List ℕ)
    → All Short (d ∷ ds)
    → All (λ d. 0 ∉ d) (d ∷ ds)
    → Short n
    → 12 * length (d ∷ ds) + length n + 1 < directory_size
    → buffers.directory (12 * length (d ∷ ds) + length n + 1) ≢ b'/'
    → 11 < size
    → split_filename size buffers (c ∷ path_rest (d ∷ ds) n)
      ≡ ok (join (map (pad 11) (d ∷ ds)), pad 11 n)
unfolding split_filename looped
split_filename-wide size buffers c d ds n short live last fits clean wide =
    let filled_size = length-filled (d ∷ ds) in
    let all = length-written (d ∷ ds) n in
    let end : 12 * length (d ∷ ds) + length n + 1 ≡ length (filled (d ∷ ds)) + suc (length n) =
      omega (arith, filled_size) in
    let start : Split = record {
      dir_it = 1;
      file_it = 0;
      directory = buffers.directory;
      filename = buffers.filename;
    } in
    let (s, file, e, it, f, dir, name) =
      split_loop-written size (d ∷ ds) n start wide refl short last
        (omega (arith, all, filled_size)) in
    let found =
      last_slash-looped buffers.directory (d ∷ ds) n (omega (arith, filled_size)) last.0
        (subst (λ k. buffers.directory k ≢ b'/') end clean) in
    rw (lt→ltb 11 size wide, e, ◌>>=◌)
      (rw
        (
          it ∙ all,
          dir,
          f,
          name,
          lt→ltb (length (filled (d ∷ ds)) + suc (length n)) 96 (omega (arith, filled_size)),
          found,
          c_string-looped buffers.directory d ds n live (omega (arith, filled_size)),
          slice-name n file last.1,
        )
        refl)

-- Given a path of a directory below the root, of names `d ∷ ds` without slashes and zeros, and of a
-- last name `n` without a slash, all of at most 11 bytes, for which the directory array is long
-- enough and holds no slash behind what is written: with an array of at least 12 bytes for the name,
-- `split_filename` gives the path of the directory with its names filled to 11 bytes, and the last
-- name filled to 11 bytes. With an array of 11 bytes, which is what its callers have, or fewer, a call
-- with any path goes outside an array or a string, which is undefined.
pub split_filename-join :
    (size : ℕ) (buffers : PathBuffers) (c : ℕ) (d : List ℕ) (ds : List (List ℕ)) (n : List ℕ)
    → All Short (d ∷ ds)
    → All (λ d. 0 ∉ d) (d ∷ ds)
    → Short n
    → 12 * length (d ∷ ds) + length n + 1 < directory_size
    → buffers.directory (12 * length (d ∷ ds) + length n + 1) ≢ b'/'
    → (11 < size
        → split_filename size buffers (c ∷ path_rest (d ∷ ds) n)
          ≡ ok (join (map (pad 11) (d ∷ ds)), pad 11 n))
      × (size ≤ 11 → (path : List ℕ) → split_filename size buffers path ≡ fault)
split_filename-join size buffers c d ds n short live last fits clean = (
  split_filename-wide size buffers c d ds n short live last fits clean,
  λ small path. split_filename-small size buffers path small,
)
