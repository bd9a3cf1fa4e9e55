-- ===== src/Text.antt =====
-- Numbers as text: `itoa` and `strlen` of zeos_full/libc.c, and `itoahex` of zeos_full/utils.c. The
-- code of `itoa` stands in zeos_full/zeos_interrupt.c and file-system/fat32.c too.
pub mod Digits
pub mod Turn
pub mod Decimal
pub mod Numbers
use ze_os_filesystem.Base.{
  ℕ, zero, suc, ◌+◌, ◌-◌, ◌/◌, ◌%◌, ◌==◌, ltb, if◌then◌else◌, update, Result, ok, out_of_fuel,
  ◌>>=◌,
}
use ze_os_filesystem.Base.Int.{ℤ, pos, negsuc}

abbrev pub Buffer : Type 0
Buffer = ℕ → ℕ

-- The digits of `a` in a base, the least significant first, from index `i` on: the index after them.
unfoldable pub digits_loop : ℕ → (ℕ → ℕ) → ℕ → ℕ → ℕ → Buffer → Result (ℕ × Buffer)
digits_loop base digit zero a i b = if a == 0 then ok (i, b) else out_of_fuel
digits_loop base digit (suc fuel) a i b =
    let more = digits_loop base digit fuel (a / base) (i + 1) (update b i (digit (a % base))) in
    if a == 0 then ok (i, b) else more

-- The loop that turns the first `i` characters round, with the rounds that are left.
unfoldable pub swap_loop : ℕ → ℕ → ℕ → Buffer → Buffer
swap_loop zero i1 i b = b
swap_loop (suc rounds) i1 i b =
    swap_loop rounds (i1 + 1) i (update (update b i1 (b (i - i1 - 1))) (i - i1 - 1) (b i1))

abbrev pub decimal : ℕ → ℕ
decimal x = x + b'0'

unfoldable pub itoa_pos : ℕ → Buffer → Result Buffer
itoa_pos a b =
    if a == 0
    then ok (update (update b 0 b'0') 1 0)
    else (do (i, b') ← digits_loop 10 decimal 10 a 0 b; ok (update (swap_loop (i / 2) 0 i b') i 0))

-- `itoa`: an `int` has ten digits at most. No digit of a negative number is written.
unfoldable pub itoa : ℤ → Buffer → Result Buffer
unfolding itoa_pos
itoa (pos a) b = itoa_pos a b
itoa (negsuc a) b = ok (update b 0 0)

-- `strlen`, for a text that is closed within the fuel, from index `i` on.
unfoldable pub strlen_loop : ℕ → ℕ → Buffer → Result ℕ
strlen_loop zero i a = out_of_fuel
strlen_loop (suc fuel) i a =
    let more = strlen_loop fuel (i + 1) a in if a i == 0 then ok i else more

abbrev pub hex : ℕ → ℕ
hex x = if ltb x 10 then x + b'0' else x - 10 + b'A'

-- The buffer from index 2 on, and a buffer with that part replaced.
abbrev pub rest : Buffer → Buffer
rest b k = b (k + 2)

abbrev pub prefixed : Buffer → Buffer
prefixed t k = if k == 0 then b'0' else (if k == 1 then b'x' else t (k - 2))

-- `itoahex`: an `unsigned` has eight digits at most, after `0x`.
unfoldable pub itoahex : ℕ → Buffer → Result Buffer
itoahex a b = if a == 0 then ok (prefixed (update (update (rest b) 0 b'0') 1 0)) else (do
  (i, t) ← digits_loop 16 hex 8 a 0 (rest b)
  ok (prefixed (update (swap_loop (i / 2) 0 i t) i 0)))
