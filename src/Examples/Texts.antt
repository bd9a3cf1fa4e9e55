-- ===== src/Examples/Texts.antt =====
-- The theorems on texts, the screen, the clock and the descriptor table at small inputs.
use ze_os_filesystem.Base.{
  ◌⊎◌, ℕ, ◌+◌, ◌/◌, ◌%◌, ◌^◌, ◌≤◌, ◌<◌, ◌≡◌, ◌≢◌, [], ◌∷◌, ◌++◌, get_or, some, none, ok, arith,
}
use ze_os_filesystem.Base.Int.{pos}
use ze_os_filesystem.Text.{Buffer, decimal, itoa, strlen_loop}
use ze_os_filesystem.Text.Decimal.{Written}
use ze_os_filesystem.Text.Numbers.{decimal_value, itoa-value}
use ze_os_filesystem.Screen.{Screen, cell, printk}
use ze_os_filesystem.Screen.Layout.{InScreen, place, screen_size, printk-consecutive}
use ze_os_filesystem.Clock.{Clock, ticks}
use ze_os_filesystem.Clock.Display.{Shown}
use ze_os_filesystem.Clock.Time.{zero_clock, ticks-time}
use ze_os_filesystem.Trap.{Gate, Entry, exceptions, services, set_idt, kernel_cs}
use ze_os_filesystem.Trap.Gates.{offset, level, last_call, set_idt-gates}

itoa-value_example :
    (b' : Buffer) × (len : ℕ) × (itoa (pos 2048) (λ _. 7) ≡ ok b')
    × (len ≤ 10)
    × Written 10 decimal decimal_value 2048 (λ _. 7) len b'
    × (strlen_loop 11 0 b' ≡ ok len)
itoa-value_example = itoa-value 2048 (λ _. 7) (omega arith)

-- The last cell of the last row is next.
abbrev full_screen : Screen
full_screen = record { x = 79; y = 24; cells = λ i. 0 }

full_screen-InScreen : InScreen full_screen
full_screen-InScreen = record { column = omega arith; row = omega arith }

printk-consecutive_example :
    ((i : ℕ)
      → i < 2
      → (printk (b'O' ∷ b'K' ∷ []) full_screen).cells ((place full_screen + i) % screen_size)
        ≡ cell (get_or (b'O' ∷ b'K' ∷ []) i 0))
    × ((q : ℕ)
        → ((i : ℕ) → i < 2 → q ≢ (place full_screen + i) % screen_size)
        → (printk (b'O' ∷ b'K' ∷ []) full_screen).cells q ≡ 0)
printk-consecutive_example =
    printk-consecutive (b'O' ∷ b'K' ∷ []) full_screen full_screen-InScreen
      ((λ e. omega (arith, e)), ((λ e. omega (arith, e)), tt)) (omega arith)

abbrev second_minute : Clock
second_minute = record { clocks = 2; segs = 1; mins = 1 }

ticks-time_example :
    (cells' : ℕ → ℕ) × (ticks 1100 (λ _. 7) (λ _. 7) zero_clock (λ _. 0)
      ≡ ok (second_minute, cells'))
    × ((i : ℕ) → (i < 70) ⊎ (74 < i) → cells' i ≡ 0)
    × (1100 < 18 → cells' ≡ (λ _. 0))
    × (18 ≤ 1100 → 1100 < 108000 → Shown second_minute cells')
ticks-time_example = ticks-time 1100 (λ _. 7) (λ _. 7) (λ _. 0) (omega arith)

abbrev empty_table : ℕ → Gate
empty_table = λ v. record { low_offset = 0; segment_selector = 0; flags = 0; high_offset = 0 }

abbrev vector : ℕ
vector = 0x80

set_idt-gates_example :
    ((e : Entry) (l : ℕ)
      → last_call vector (exceptions ++ services) ≡ some (e, l)
      → (offset ((set_idt (λ _. 0x12345) empty_table).1 vector) ≡ 0x12345)
        × (((set_idt (λ _. 0x12345) empty_table).1 vector).segment_selector ≡ kernel_cs)
        × (((set_idt (λ _. 0x12345) empty_table).1 vector).flags / 2 ^ 15 ≡ 1)
        × (((set_idt (λ _. 0x12345) empty_table).1 vector).flags / 2 ^ 8 % 2 ^ 5 ≡ 0x0E)
        × (level ((set_idt (λ _. 0x12345) empty_table).1 vector) ≡ l)
        × (vector ≢ vector → l ≡ 0))
    × (last_call vector (exceptions ++ services) ≡ none
        → (set_idt (λ _. 0x12345) empty_table).1 vector ≡ empty_table vector)
set_idt-gates_example = set_idt-gates (λ _. 0x12345) empty_table vector (λ e. omega arith)
