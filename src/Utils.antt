-- ===== src/Utils.antt =====
-- zeos_full/utils.c: copies between address spaces and the check of user pointers. An `unsigned
-- long` has 32 bits.
pub mod Copy
pub mod Access
use ze_os_filesystem.Base.{
  ℕ, zero, suc, ◌+◌, ◌-◌, ◌/◌, ◌%◌, ◌^◌, Bool, true, false, not, ◌&&◌, ◌||◌, ltb, leb, ◌==◌,
  if◌then◌else◌, update, Result, ok, out_of_fuel,
}
use ze_os_filesystem.Fat.{Buffer}

-- The pages of a process (zeos_full/include/mm_address.h).
abbrev pub user_first_page : ℕ
user_first_page = 256

abbrev pub num_pag_code : ℕ
num_pag_code = 8

abbrev pub num_pag_data : ℕ
num_pag_data = 20

abbrev pub verify_read : ℕ
verify_read = 0

abbrev pub verify_write : ℕ
verify_write = 1

-- `while (size > 0) *q1++ = *p1++`, byte by byte.
unfoldable pub copy_bytes : ℕ → ℕ → ℕ → Buffer → Buffer
copy_bytes zero p q memory = memory
copy_bytes (suc size) p q memory = copy_bytes size (p + 1) (q + 1) (update memory q (memory p))

-- `*q = *p` for 32-bit words: the four bytes are read before any is written.
unfoldable pub copy_word : ℕ → ℕ → Buffer → Buffer
copy_word p q memory =
    update
      (update (update (update memory q (memory p)) (q + 1) (memory (p + 1))) (q + 2)
        (memory (p + 2)))
      (q + 3) (memory (p + 3))

-- `while (size > 4)`, then the rest: `copy_data`, `copy_from_user` and `copy_to_user` have the same
-- body.
unfoldable pub copy_data : ℕ → ℕ → ℕ → Buffer → Buffer
unfolding copy_word copy_bytes
copy_data (suc (suc (suc (suc (suc size))))) p q memory =
    copy_data (suc size) (p + 4) (q + 4) (copy_word p q memory)
copy_data size p q memory = copy_bytes size p q memory

-- The pages from the first of the code, or of the data, to the last of the data.
abbrev in_pages : ℕ → ℕ → ℕ → Bool
in_pages first ini fin = leb first ini && leb fin (user_first_page + num_pag_code + num_pag_data)

-- The `case` of `VERIFY_WRITE` has no `break`.
unfoldable pub access_ok : ℕ → ℕ → ℕ → Bool
access_ok type addr size =
    let ini = addr / 2 ^ 12 in
    let fin = (addr + size) % 2 ^ 32 / 2 ^ 12 in
    if ltb fin ini
    then false
    else if (type == verify_write) && in_pages (user_first_page + num_pag_code) ini fin
    then true
    else in_pages user_first_page ini fin
