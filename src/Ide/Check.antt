-- ===== src/Ide/Check.antt =====
-- The test of the disk at start-up: `ide_check_disk` of disk-driver/ide.c. The screen is left out.
pub mod Passes
use ze_os_filesystem.Base.{
  ℕ, zero, suc, ◌+◌, ◌-◌, ◌%◌, ◌^◌, Bool, true, false, not, ◌||◌, List, [], ◌∷◌, Option, none, some,
  ltb, ◌==◌, if◌then◌else◌, Result, ok, out_of_fuel, ◌>>=◌,
}
use ze_os_filesystem.Base.Int.{as_int, ℤ, pos, negsuc, neg, ltb_ℤ}
use ze_os_filesystem.Text.{itoa}
use ze_os_filesystem.Ide.{Bus, Buffer, Disks, idewrite, ideread}

abbrev pub init_block : ℕ → Buffer → Buffer
init_block c b j = if ltb j 512 then c else b j

-- The first of `n` places from `i` on that holds another byte, or -1.
unfoldable pub check_from : ℕ → ℕ → Buffer → ℕ → ℤ
check_from zero i b val = negsuc 0
check_from (suc n) i b val =
    let rest = check_from n (i + 1) b val in if not (b i == val) then pos i else rest

abbrev pub check_block : Buffer → ℕ → ℤ
check_block b val = check_from 512 0 b val

-- `itoa(i-1, b)`
unfoldable pub print_count : ℕ → Option Buffer → Result (Option Buffer)
print_count n none = ok none
print_count n (some b) = do t ← itoa (as_int n) b; ok (some t)

module _ {D : Type 0} (bus : Bus D) where
  -- The two loops that go on until a transfer fails, with fuel: the count `i` afterwards.
  unfoldable pub write_until : ℕ → ℕ → ℕ → Buffer → D → Result (ℕ × D)
  write_until zero fuel i b d = out_of_fuel
  write_until (suc rounds) fuel i b d = do
    (res, d') ← idewrite bus fuel (some b) i d
    elim res [
      | negsuc _ ↦ ok ((i + 1) % 2 ^ 32, d')
      | pos _ ↦ write_until rounds fuel ((i + 1) % 2 ^ 32) b d'
    ]

  unfoldable pub read_until : ℕ → ℕ → ℕ → Option Buffer → D → Result (ℕ × Option Buffer × D)
  read_until zero fuel i b d = out_of_fuel
  read_until (suc rounds) fuel i b d = do
    (res, b', d') ← ideread bus fuel b i d
    elim res [
      | negsuc _ ↦ ok ((i + 1) % 2 ^ 32, b', d')
      | pos _ ↦ read_until rounds fuel ((i + 1) % 2 ^ 32) b' d'
    ]

  abbrev pub filled_with : ℕ → Option Buffer → Option Buffer
  filled_with c none = none
  filled_with c (some b) = some (init_block c b)

  unfoldable pub write_block : ℕ → ℕ → ℕ → Option Buffer → D → Result (Option Buffer × D)
  write_block fuel c block b d = do
    (_, d') ← idewrite bus fuel (filled_with c b) block d
    ok (filled_with c b, d')

  -- Whether the block holds the byte everywhere: `[OK]`.
  unfoldable pub read_block : ℕ → ℕ → ℕ → Option Buffer → D → Result (Bool × Option Buffer × D)
  read_block fuel c block b d = do
    (_, b', d') ← ideread bus fuel (filled_with 0xff b) block d
    elim b' [
      | none ↦ ok (false, none, d')
      | some bytes ↦ ok (ltb_ℤ (check_block bytes c) (pos 0), some bytes, d')
    ]

  -- The three blocks that are written first, and what the code reads back.
  unfoldable pub write_tests : ℕ → Option Buffer → D → Result (Option Buffer × D)
  write_tests fuel b d = do
    (b1, d1) ← write_block fuel 0xab 1 b d
    (b2, d2) ← write_block fuel 0xca 3 b1 d1
    write_block fuel 0xab 5 b2 d2

  unfoldable pub read_tests : ℕ → Option Buffer → D → Result (List Bool × D)
  read_tests fuel b d = do
    (test5, b1, d1) ← read_block fuel 0xab 5 b d
    (test3, b2, d2) ← read_block fuel 0xca 3 b1 d1
    (test1, b3, d3) ← read_block fuel 0xab 1 b2 d2
    (b4, d4) ← write_block fuel 0x22 2 b3 d3
    (test2, b5, d5) ← read_block fuel 0x22 2 b4 d4
    ok (test5 ∷ test3 ∷ test1 ∷ test2 ∷ [], d5)

  -- The result, `proso_blocks`, the four tests, and the device.
  unfoldable pub ide_check_disk : ℕ → ℕ → Disks → ℕ → Buffer → D → Result (ℤ × ℕ × List Bool × D)
  ide_check_disk rounds fuel disks proso_blocks b d =
      if not (disks.havedisk0 || disks.havedisk1) then ok (negsuc 0, proso_blocks, [], d) else (do
        let first = init_block 0xff b
        (written, d1) ← write_until rounds fuel 0 first d
        b1 ← print_count (written - 1) (some first)
        (was_read, b2, d2) ← read_until rounds fuel 0 b1 d1
        b3 ← print_count (was_read - 1) b2
        (b4, d3) ← write_tests fuel b3 d2
        (tests, d4) ← read_tests fuel b4 d3
        ok (pos 0, written - 1, tests, d4))
