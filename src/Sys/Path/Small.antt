-- ===== src/Sys/Path/Small.antt =====
-- `split_filename` of zeos_full/sys.c with an array of the size that its callers have.
use ze_os_filesystem.Base.{
  ℕ, ◌+◌, ◌-◌, ◌≤◌, ◌≡◌, refl, ◌⊎◌, inl, inr, Bool-cases, ltb, ◌&&◌, ◌||◌, ◌==◌, if◌then◌else◌,
  le→ltb, List, [], ◌∷◌, replicate, update, Result, ok, fault, ◌>>=◌, arith,
}
use ze_os_filesystem.Fat.Entry.{write_bytes}
use ze_os_filesystem.Sys.Path.{
  PathBuffers, Split, directory_size, end_component, copy_byte, split_loop, split_filename,
}

-- The code goes on with the iterator of the name inside its array, or is undefined.
abbrev Within : ℕ → Result Split → Type 0
Within size r = ((s : Split) × (r ≡ ok s) × (s.file_it ≤ size)) ⊎ (r ≡ fault)

end_component-Within : (size : ℕ) (s : Split) → Within size (end_component size s)
unfolding end_component
end_component-Within size s =
    elim (Bool-cases
      (ltb (s.dir_it + (11 - s.file_it)) directory_size && (ltb 10 size || ltb 10 s.file_it))) [
        | inl inside ↦ inl (
          record {
            dir_it = s.dir_it + (11 - s.file_it) + 1;
            file_it = 0;
            directory =
                update (write_bytes s.directory s.dir_it (replicate (11 - s.file_it) b' '))
                  (s.dir_it + (11 - s.file_it)) b'/';
            filename = write_bytes s.filename s.file_it (replicate (11 - s.file_it) b' ');
          },
          rw (inside, ◌>>=◌) refl,
          omega arith,
        )
        | inr outside ↦ inr (rw (outside, ◌>>=◌) refl)
      ]

copy_byte-Within : (size c : ℕ) (s : Split) → Within size (copy_byte size c s)
unfolding copy_byte
copy_byte-Within size c s = elim (Bool-cases (ltb s.dir_it directory_size && ltb s.file_it size)) [
  | inl inside ↦ inl (
    record {
      dir_it = s.dir_it + 1;
      file_it = s.file_it + 1;
      directory = update s.directory s.dir_it c;
      filename = update s.filename s.file_it c;
    },
    rw (inside, ◌>>=◌) refl,
    ground arith,
  )
  | inr outside ↦ inr (rw (outside, ◌>>=◌) refl)
]

byte-Within :
    (size c : ℕ) (s : Split)
    → Within size (if c == b'/' then end_component size s else copy_byte size c s)
byte-Within size c s = elim (Bool-cases (c == b'/')) [
  | inl slash ↦ rw slash (end_component-Within size s)
  | inr other ↦ rw other (copy_byte-Within size c s)
]

split_loop-Within :
    (size : ℕ) (path : List ℕ) (s : Split) → s.file_it ≤ size → Within size (split_loop size path s)
unfolding split_loop
split_loop-Within size [] s le = inl (s, refl, le)
split_loop-Within size (c ∷ path) s le = elim (byte-Within size c s) [
  | inl (s1, e, within) ↦ rw (e, ◌>>=◌) (split_loop-Within size path s1 within)
  | inr e ↦ inr (rw (e, ◌>>=◌) refl)
]

-- An array of 11 bytes or fewer is too small for every path.
pub split_filename-small :
    (size : ℕ) (buffers : PathBuffers) (path : List ℕ)
    → size ≤ 11
    → split_filename size buffers path ≡ fault
unfolding split_filename
split_filename-small size buffers [] small = refl
split_filename-small size buffers (c ∷ path) small =
    let start : Split = record {
      dir_it = 1;
      file_it = 0;
      directory = buffers.directory;
      filename = buffers.filename;
    } in
    elim (split_loop-Within size path start (omega arith)) [
      | inl (s, e, within) ↦
          rw (e, ◌>>=◌, le→ltb 11 size small, le→ltb 11 s.file_it (omega arith)) refl
      | inr e ↦ rw (e, ◌>>=◌) refl
    ]
