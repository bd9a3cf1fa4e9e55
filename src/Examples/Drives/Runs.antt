-- ===== src/Examples/Drives/Runs.antt =====
-- The theorems on disk-driver/ide.c at the small disk.
use ze_os_filesystem.Base.{
  ◌⊎◌, ◌^◌, ◌≤◌, out_of_fuel, if◌then◌else◌, ◌&&◌, true, false, suc, ℕ, zero, ◌/◌, ◌%◌, ◌<◌, ◌≡◌,
  ◌≢◌, ◌↔◌, refl, ◌||◌, ltb, update, [], ◌∷◌, some, ok, arith,
}
use ze_os_filesystem.Base.Int.{pos, negsuc}
use ze_os_filesystem.Fat.{FileSystem, ide_read, ide_write}
use ze_os_filesystem.Ide.{
  Buffer, dword, port_count, port_lbal, port_dev, is_requesting, is_error, idewait, wait_data,
  idesetblock, ideread, idewrite,
}
use ze_os_filesystem.Ide.Drive.{View, Phase, address}
use ze_os_filesystem.Ide.Words.{byte}
use ze_os_filesystem.Ide.Poll.{
  Returns, answers, has_failed, after, idewait_lem, wait_data-Returns_iff, status,
}
use ze_os_filesystem.Ide.Registers.{idesetblock-address}
use ze_os_filesystem.Ide.Transfer.{IsReady}
use ze_os_filesystem.Ide.Refusal.{transfer_refused, idewrite-stale}
use ze_os_filesystem.Ide.Refine.{Represents, ide-refines}
use ze_os_filesystem.Ide.Check.{ide_check_disk}
use ze_os_filesystem.Ide.Check.Passes.{ide_check_disk-passes}
use ze_os_filesystem.Examples.{example_disk}
use ze_os_filesystem.Examples.Drives.{small_bus, small_drive}

-- The device after a transfer of block 2: 512 bytes 65 in each block.
abbrev full_drive : View
full_drive = record {
  pending = 2;
  phase = Phase.idle;
  regs = update (update (λ _. 0) port_count 1) port_lbal 2;
  contents = λ _ _. dword (λ _. 65) 0;
}

-- The same, with the device selected.
abbrev selected_drive : View
selected_drive = record full_drive { pending = 0; regs = update (full_drive.regs) port_dev 0xE0 }

full_drive-IsReady : IsReady small_bus small_drive 10 full_drive
full_drive-IsReady = record { accepting = refl; soon = omega arith; quick = omega arith }

selected_drive-IsReady : IsReady small_bus small_drive 10 selected_drive
selected_drive-IsReady = record { accepting = refl; soon = omega arith; quick = omega arith }

abbrev letters : Buffer
letters = λ _. 66

abbrev full_disk : FileSystem
full_disk = record example_disk { disk = λ _ _. 65 }

byte_65 : (r : ℕ) → r < 4 → byte (dword (λ _. 65) 0) r ≡ 65
byte_65 zero h = refl
byte_65 (suc zero) h = refl
byte_65 (suc (suc zero)) h = refl
byte_65 (suc (suc (suc zero))) h = refl
byte_65 (suc (suc (suc (suc r)))) h = absurd (omega arith)

full_drive-Represents : Represents small_bus small_drive full_drive full_disk
full_drive-Represents k j small inside = byte_65 (j % 4) (omega arith)

ide-refines_example :
    ((b' : Buffer) × (d' : View) × (ideread small_bus 10 (some letters) 3 full_drive
        ≡ ok (pos 0, some b', d'))
      × ((j : ℕ) → j < 512 → b' j ≡ ide_read 3 full_disk j)
      × Represents small_bus small_drive d' full_disk
      × IsReady small_bus small_drive 10 d')
    × ((d' : View) × (idewrite small_bus 10 (some letters) 3 full_drive ≡ ok (pos 0, d'))
        × Represents small_bus small_drive d' (ide_write letters 3 full_disk)
        × IsReady small_bus small_drive 10 d')
ide-refines_example =
    ide-refines small_bus small_drive 10 3 letters full_drive full_disk (λ i. omega arith)
      full_drive-IsReady full_drive-Represents (omega arith) (omega arith)

ide_check_disk-passes_example :
    (d' : View) × (ide_check_disk small_bus 9 10
        (record { havedisk0 = true; havedisk1 = false })
        0
        letters
        full_drive
      ≡ ok (pos 0, 8, true ∷ true ∷ true ∷ true ∷ [], d'))
    × IsReady small_bus small_drive 10 d'
ide_check_disk-passes_example =
    ide_check_disk-passes small_bus small_drive 10 (omega arith) (omega arith) (omega arith) 9
      (record { havedisk0 = true; havedisk1 = false }) 0 letters full_drive full_drive-IsReady refl
      (omega arith) (omega arith)

wait_data-Returns_iff_example : Returns (wait_data small_bus 10 0 full_drive) ↔ (
    (k : ℕ) × (k < 10)
    × ((is_requesting (status small_bus k full_drive)
          || (ltb 4 k && is_error (status small_bus k full_drive)))
        ≡ true))
wait_data-Returns_iff_example = wait_data-Returns_iff small_bus 10 full_drive (omega arith)

idewait_lem_example :
    (((k : ℕ) → k < 10 → answers (status small_bus k full_drive) ≡ false)
      → idewait small_bus 10 true full_drive ≡ out_of_fuel)
    × ((k : ℕ)
        → k < 10
        → answers (status small_bus k full_drive) ≡ true
        → ((j : ℕ) → j < k → answers (status small_bus j full_drive) ≡ false)
        → idewait small_bus 10 true full_drive
          ≡ ok (
            if true && has_failed (status small_bus k full_drive) then negsuc 0 else pos 0,
            after small_bus (suc k) full_drive,
          ))
idewait_lem_example = idewait_lem small_bus small_drive.status_byte 10 true full_drive

idesetblock-address_example :
    (0x1234567 < 2 ^ 28
      → 0 ≤ 1
      → (d' : View) × (idesetblock small_bus 1 0x1234567 0 selected_drive ≡ (pos 0, d'))
        × (d' ≡ record selected_drive { regs = d'.regs })
        × (d'.regs port_count ≡ 1)
        × (address d'.regs ≡ 0x1234567)
        × (d'.regs port_dev / 64 % 2 ≡ 1)
        × (d'.regs port_dev / 16 % 2 ≡ 0))
    × ((2 ^ 28 ≤ 0x1234567) ⊎ (1 < 0)
        → idesetblock small_bus 1 0x1234567 0 selected_drive ≡ (negsuc 0, selected_drive))
idesetblock-address_example =
    idesetblock-address small_bus small_drive 1 0x1234567 0 selected_drive refl refl

transfer_refused_example :
    ((d' : View) × (ideread small_bus 10 (some letters) 8 full_drive
        ≡ ok (negsuc 0, some letters, d'))
      × (d'.contents ≡ full_drive.contents)
      × IsReady small_bus small_drive 10 d')
    × ((d' : View) × (idewrite small_bus 10 (some letters) 8 full_drive ≡ ok (negsuc 0, d'))
        × (d'.contents ≡ full_drive.contents)
        × IsReady small_bus small_drive 10 d')
transfer_refused_example =
    transfer_refused small_bus small_drive 10 8 letters full_drive full_drive-IsReady (omega arith)
      (omega arith) (omega arith) (omega arith)

idewrite-stale_example :
    (d' : View) × (idewrite small_bus 10 (some letters) 0x10000003 selected_drive ≡ ok (pos 0, d'))
    × ((i : ℕ) → i < 128 → d'.contents 2 i ≡ dword letters i)
    × ((other : ℕ) → other ≢ 2 → d'.contents other ≡ selected_drive.contents other)
idewrite-stale_example =
    idewrite-stale small_bus small_drive 10 0x10000003 letters selected_drive selected_drive-IsReady
      (omega arith) (refl, refl, refl) (omega arith)
