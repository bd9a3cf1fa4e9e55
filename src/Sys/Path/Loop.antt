-- ===== src/Sys/Path/Loop.antt =====
-- The loop of `split_filename` of zeos_full/sys.c on a path that is put together from names.
use ze_os_filesystem.Base.{
  ◌<◌, ℕ, zero, suc, ◌+◌, ◌-◌, ◌≤◌, ◌≡◌, refl, false, ◌==◌, List, [], ◌∷◌, ◌++◌, arith, length,
  length-append, replicate, All, update, ap, sym, ◌∙◌, subst, append-nil, append_assoc, ok, ◌>>=◌,
  lt→ltb,
}
use ze_os_filesystem.Fat.{Buffer}
use ze_os_filesystem.Fat.Entry.{write_bytes}
use ze_os_filesystem.Fat.Path.Components.{pad, NoSlash, length-pad}
use ze_os_filesystem.Sys.Path.{Split, end_component, copy_byte, split_loop, directory_size}

-- The names `ds`, each followed by a slash, and the name `n`; and the same with the names of `ds`
-- filled to 11 bytes.
unfoldable pub path_rest : List (List ℕ) → List ℕ → List ℕ
path_rest [] n = n
path_rest (d ∷ ds) n = d ++ b'/' ∷ path_rest ds n

unfoldable pub written : List (List ℕ) → List ℕ → List ℕ
written [] n = n
written (d ∷ ds) n = pad 11 d ++ b'/' ∷ written ds n

pub write_bytes-append :
    (xs ys : List ℕ) (b : Buffer) (i : ℕ)
    → write_bytes b i (xs ++ ys) ≡ write_bytes (write_bytes b i xs) (i + length xs) ys
unfolding write_bytes
write_bytes-append [] ys b i = let same : i + 0 ≡ i = omega arith in rw same refl
write_bytes-append (x ∷ xs) ys b i =
    let place : i + 1 + length xs ≡ i + suc (length xs) = omega arith in
    write_bytes-append xs ys (update b i x) (i + 1) ∙ rw place refl

pub write_byte : (b : Buffer) (i c : ℕ) → write_bytes b i (c ∷ []) ≡ update b i c
unfolding write_bytes
write_byte b i c = refl

pub pad_append : (k : ℕ) (d : List ℕ) → length d ≤ k → pad k d ≡ d ++ replicate (k - length d) b' '
unfolding pad
pad_append zero [] h = refl
pad_append zero (x ∷ d) h = absurd (omega arith)
pad_append (suc k) [] h = let whole : suc k - 0 ≡ suc k = omega arith in rw whole refl
pad_append (suc k) (x ∷ d) h =
    let less : suc k - suc (length d) ≡ k - length d = omega arith in
    rw less (ap (λ r. x ∷ r) (pad_append k d (omega arith)))

-- The state after the bytes of a name are copied.
copied : List ℕ → Split → Split
copied [] s = s
copied (c ∷ n) s = copied n (record {
  dir_it = s.dir_it + 1;
  file_it = s.file_it + 1;
  directory = update s.directory s.dir_it c;
  filename = update s.filename s.file_it c;
})

split_loop-copied :
    (size : ℕ) (n rest : List ℕ) (s : Split)
    → NoSlash n
    → s.dir_it + length n ≤ directory_size
    → s.file_it + length n ≤ size
    → split_loop size (n ++ rest) s ≡ split_loop size rest (copied n s)
unfolding split_loop copied copy_byte
split_loop-copied size [] rest s plain p q = refl
split_loop-copied size (c ∷ n) rest s plain p q =
    let other : (c == b'/') ≡ false = ground arith in
    rw (other, lt→ltb s.dir_it 96 (omega arith), lt→ltb s.file_it size (omega arith), ◌>>=◌)
      (split_loop-copied size n rest _ (ground arith) (omega arith) (omega arith))

copied_fields :
    (n : List ℕ) (s : Split)
    → ((copied n s).dir_it ≡ s.dir_it + length n)
      × ((copied n s).file_it ≡ s.file_it + length n)
      × ((copied n s).directory ≡ write_bytes s.directory s.dir_it n)
      × ((copied n s).filename ≡ write_bytes s.filename s.file_it n)
unfolding copied write_bytes
copied_fields [] s = (omega arith, omega arith, refl, refl)
copied_fields (c ∷ n) s =
    let (d, f, dir, file) = copied_fields n _ in (d ∙ omega arith, f ∙ omega arith, dir, file)

-- The state behind a slash: the name filled to 11 bytes and the slash are in the directory.
abbrev pub behind : List ℕ → Buffer → Split → Split
behind d file s = record {
  dir_it = s.dir_it + 12;
  file_it = 0;
  directory = write_bytes s.directory s.dir_it (pad 11 d ++ b'/' ∷ []);
  filename = file;
}

end_component-copied :
    (size : ℕ) (d : List ℕ) (s : Split)
    → 11 < size
    → s.file_it ≡ 0
    → length d ≤ 11
    → s.dir_it + 12 ≤ directory_size
    → (file : Buffer) × (end_component size (copied d s) ≡ ok (behind d file s))
unfolding end_component
end_component-copied size d s wide start small fits =
    let (e1, e2, e3, e4) = copied_fields d s in
    let taken : (copied d s).file_it ≡ length d = e2 ∙ omega (arith, start) in
    let place : s.dir_it + length d + (11 - length d) ≡ s.dir_it + 11 = omega arith in
    let next : s.dir_it + 11 + 1 ≡ s.dir_it + 12 = omega arith in
    let blanks = replicate (11 - length d) b' ' in
    let dir : write_bytes s.directory s.dir_it (pad 11 d ++ b'/' ∷ [])
        ≡ update (write_bytes (write_bytes s.directory s.dir_it d) (s.dir_it + length d) blanks)
            (s.dir_it + 11) b'/' =
      write_bytes-append (pad 11 d) (b'/' ∷ []) s.directory s.dir_it
      ∙ rw
          (length-pad 11 d, pad_append 11 d small, write_bytes-append d blanks s.directory s.dir_it)
          (write_byte _ (s.dir_it + 11) b'/') in
    (
      write_bytes ((copied d s).filename) ((copied d s).file_it)
          (replicate (11 - (copied d s).file_it) b' '),
      rw
          (
            taken,
            e1,
            e3,
            place,
            lt→ltb (s.dir_it + 11) 96 (omega arith),
            lt→ltb 10 size (omega arith),
            ◌>>=◌,
            next,
            dir,
          )
          refl,
    )

written-append :
    (d w : List ℕ) (b : Buffer) (i : ℕ)
    → write_bytes (write_bytes b i (pad 11 d ++ b'/' ∷ [])) (i + 12) w
      ≡ write_bytes b i (pad 11 d ++ b'/' ∷ w)
written-append d w b i =
    let size : length (pad 11 d ++ b'/' ∷ []) ≡ 12 =
      length-append (pad 11 d) (b'/' ∷ []) ∙ omega (arith, length-pad 11 d) in
    ap (λ k. write_bytes (write_bytes b i (pad 11 d ++ b'/' ∷ [])) (i + k) w) (sym size)
    ∙ sym (write_bytes-append (pad 11 d ++ b'/' ∷ []) w b i)
    ∙ ap (write_bytes b i) (append_assoc (pad 11 d) (b'/' ∷ []) w)

-- Names without slashes of at most 11 bytes.
abbrev pub Short : List ℕ → Type 0
Short d = NoSlash d × (length d ≤ 11)

-- What the loop leaves: the directory array has the names, filled, and the last name; the array
-- of the name has the last one from its start.
pub split_loop-written :
    (size : ℕ) (ds : List (List ℕ)) (n : List ℕ) (s : Split)
    → 11 < size
    → s.file_it ≡ 0
    → All Short ds
    → Short n
    → s.dir_it + length (written ds n) ≤ directory_size
    → (s' : Split) × (file : Buffer) × (split_loop size (path_rest ds n) s ≡ ok s')
      × (s'.dir_it ≡ s.dir_it + length (written ds n))
      × (s'.file_it ≡ length n)
      × (s'.directory ≡ write_bytes s.directory s.dir_it (written ds n))
      × (s'.filename ≡ write_bytes file 0 n)
unfolding path_rest written split_loop
split_loop-written size [] n s wide start short (plain, small) fits =
    let (e1, e2, e3, e4) = copied_fields n s in
    (
      copied n s,
      s.filename,
      subst (λ p. split_loop size p s ≡ ok (copied n s)) (append-nil n)
          (split_loop-copied size n [] s plain fits (omega (arith, start))),
      e1,
      e2 ∙ omega (arith, start),
      e3,
      e4 ∙ rw start refl,
    )
split_loop-written size (d ∷ ds) n s wide start ((plain, small), short) last fits =
    let sum = length-append (pad 11 d) (b'/' ∷ written ds n) in
    let (file, e) =
      end_component-copied size d s wide start small (omega (arith, sum, length-pad 11 d)) in
    let s1 = behind d file s in
    let (s', file', e', it, f, dir, name) =
      split_loop-written size ds n s1 wide refl short last (omega (arith, sum, length-pad 11 d)) in
    (
      s',
      file',
      split_loop-copied size d (b'/' ∷ path_rest ds n) s plain (omega (arith, sum, length-pad 11 d))
            (omega (arith, start))
          ∙ rw (e, split_loop, ◌>>=◌) e',
      it ∙ omega (arith, sum, length-pad 11 d),
      f,
      dir ∙ written-append d (written ds n) s.directory s.dir_it,
      name,
    )
