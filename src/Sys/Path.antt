-- ===== src/Sys/Path.antt =====
-- `split_filename` of zeos_full/sys.c, on the two arrays that its callers declare: `char dir[96]`, and
-- one for the name whose size is an argument.
pub mod Loop
pub mod Arrays
pub mod Small
pub mod Join
use ze_os_filesystem.Base.{
  ℕ, zero, suc, ◌+◌, ◌-◌, ◌&&◌, ◌||◌, ltb, ◌==◌, if◌then◌else◌, List, [], ◌∷◌, replicate, slice,
  update, Result, ok, fault, ◌>>=◌, ◌>>◌, require,
}
use ze_os_filesystem.Fat.{Buffer}
use ze_os_filesystem.Fat.Entry.{write_bytes}

-- What the stack holds where the two arrays are put. A write outside an array is a fault.
pub record PathBuffers : Type 0 where
  pub directory : Buffer
  pub filename : Buffer

abbrev pub directory_size : ℕ
directory_size = 96

-- `char filename[11]`, in both callers.
abbrev pub filename_size : ℕ
filename_size = 11

-- The state of the loop: the two iterators and the two arrays.
pub record Split : Type 0 where
  pub dir_it : ℕ
  pub file_it : ℕ
  pub directory : Buffer
  pub filename : Buffer

-- A slash: both are filled with blanks up to 11 bytes of the name, then the slash is copied.
end_component : ℕ → Split → Result Split
end_component size s = do
  let blanks = replicate (11 - s.file_it) b' '
  let dir_it = s.dir_it + (11 - s.file_it)
  require (ltb dir_it directory_size && (ltb 10 size || ltb 10 s.file_it))
  ok (record {
    dir_it = dir_it + 1;
    file_it = 0;
    directory = update (write_bytes s.directory s.dir_it blanks) dir_it b'/';
    filename = write_bytes s.filename s.file_it blanks;
  })

copy_byte : ℕ → ℕ → Split → Result Split
copy_byte size c s = do
  require (ltb s.dir_it directory_size && ltb s.file_it size)
  ok (record {
    dir_it = s.dir_it + 1;
    file_it = s.file_it + 1;
    directory = update s.directory s.dir_it c;
    filename = update s.filename s.file_it c;
  })

-- The loop over the bytes of the path from the second on.
unfoldable pub split_loop : ℕ → List ℕ → Split → Result Split
unfolding end_component copy_byte
split_loop size [] s = ok s
split_loop size (c ∷ path) s = do
  s ← (if c == b'/' then end_component size s else copy_byte size c s)
  split_loop size path s

-- `while (directory[dir_it] != '/') dir_it--;`
unfoldable pub last_slash : Buffer → ℕ → Result ℕ
last_slash directory zero = if directory 0 == b'/' then ok 0 else fault
last_slash directory (suc i) =
    let rest = last_slash directory i in if directory (suc i) == b'/' then ok (suc i) else rest

-- The string of an array of `n` bytes from index `i` on.
unfoldable pub c_string : Buffer → ℕ → ℕ → List ℕ
c_string b zero i = []
c_string b (suc n) i = let rest = c_string b n (i + 1) in if b i == 0 then [] else b i ∷ rest

-- The directory as a string, and the 11 bytes of the name. The second byte of an empty path is
-- outside it.
unfoldable pub split_filename : ℕ → PathBuffers → List ℕ → Result (List ℕ × List ℕ)
unfolding c_string
split_filename size buffers [] = fault
split_filename size buffers (c ∷ path) = do
  s ← split_loop size path (record {
    dir_it = 1;
    file_it = 0;
    directory = buffers.directory;
    filename = buffers.filename;
  })
  require (ltb 11 size || ltb 11 s.file_it)
  let filename = write_bytes s.filename s.file_it (replicate (12 - s.file_it) b' ')
  require (ltb s.dir_it directory_size)
  i ← last_slash s.directory s.dir_it
  let directory = update (update s.directory i 0) 0 b'/'
  ok (c_string directory directory_size 0, slice filename 0 11)
