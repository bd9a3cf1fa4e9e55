-- ===== src/Screen.antt =====
-- The text screen of zeos_full/io.c: 25 rows of 80 cells, and the place of the next character.
pub mod Layout
use Prim.Native.Nat.{bit_or}
use ze_os_filesystem.Base.{ℕ, ◌+◌, ◌*◌, ◌%◌, ◌^◌, List, [], ◌∷◌, leb, ◌==◌, if◌then◌else◌, update}

pub record Screen : Type 0 where
  pub x : ℕ
  pub y : ℕ
  pub cells : ℕ → ℕ

abbrev pub num_columns : ℕ
num_columns = 80

abbrev pub num_rows : ℕ
num_rows = 25

abbrev pub newline : ℕ
newline = 10

-- A character in green.
abbrev pub cell : ℕ → ℕ
cell c = bit_or (c % 2 ^ 8) 0x0200

abbrev pub next_row : Screen → Screen
next_row s = record s { x = 0; y = (s.y + 1) % num_rows }

unfoldable pub printc : ℕ → Screen → Screen
printc c s =
    let x' = (s.x + 1) % 2 ^ 8 in
    let s' = record s { x = x'; cells = update s.cells (s.y * num_columns + s.x) (cell c) } in
    if c == newline then next_row s else (if leb num_columns x' then next_row s' else s')

unfoldable pub printc_xy : ℕ → ℕ → ℕ → Screen → Screen
unfolding printc
printc_xy mx my c s =
    let s' = printc c (record s { x = mx; y = my }) in record s' { x = s.x; y = s.y }

-- The characters of a text before the 0 that closes it.
unfoldable pub printk : List ℕ → Screen → Screen
printk [] s = s
printk (c ∷ text) s = printk text (printc c s)
