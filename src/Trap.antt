-- ===== src/Trap.antt =====
-- The interrupt table of zeos_full/interrupt.c and zeos_full/zeos_interrupt.c, and the routine of the
-- keyboard.
pub mod Gates
pub mod Keyboard
use Prim.Native.Nat.{bit_and, bit_or}
use ze_os_filesystem.Base.{
  ℕ, ◌+◌, ◌-◌, ◌*◌, ◌/◌, ◌%◌, ◌^◌, List, [], ◌∷◌, ◌++◌, replicate, get_elem?, Option, none, some,
  ◌==◌, if◌then◌else◌, update, Result, ok, fault,
}
use ze_os_filesystem.Screen.{Screen, printc_xy}

pub record Gate : Type 0 where
  pub low_offset : ℕ
  pub segment_selector : ℕ
  pub flags : ℕ
  pub high_offset : ℕ

-- The routines of entry.S that the table names.
pub data Entry : Type 0 where
  divide_error debug nm1 breakpoint overflow bounds_check invalid_opcode : Entry
  device_not_available double_fault coprocessor_segment_overrun invalid_tss : Entry
  segment_not_present stack_exception general_protection page_fault intel_reserved : Entry
  floating_point_error alignment_check keyboard clock mifault ide system_call : Entry

abbrev pub kernel_cs : ℕ
kernel_cs = 0x10

-- The flags of a gate, as a 16-bit word.
unfoldable pub gate_flags : ℕ → ℕ
gate_flags level = bit_or (level * 2 ^ 13 % 2 ^ 16) 0x8E00

abbrev pub gate : ℕ → ℕ → Gate
gate handler level = record {
  low_offset = handler % 2 ^ 16;
  segment_selector = kernel_cs;
  flags = gate_flags level;
  high_offset = handler / 2 ^ 16 % 2 ^ 16;
}

-- `setInterruptHandler`, and `setTrapHandler`, which makes the same gate.
unfoldable pub set_interrupt_handler : ℕ → ℕ → ℕ → (ℕ → Gate) → ℕ → Gate
set_interrupt_handler vector handler level idt = update idt vector (gate handler level)

unfoldable pub set_trap_handler : ℕ → ℕ → ℕ → (ℕ → Gate) → ℕ → Gate
set_trap_handler vector handler level idt = update idt vector (gate handler level)

-- The calls of `setInterruptHandler`, in order: a vector, a routine and a level.
unfoldable pub exceptions : List (ℕ × Entry × ℕ)
exceptions =
    (0, divide_error, 0)
    ∷ (1, debug, 0)
    ∷ (2, nm1, 0)
    ∷ (3, breakpoint, 0)
    ∷ (4, overflow, 0)
    ∷ (5, bounds_check, 0)
    ∷ (6, invalid_opcode, 0)
    ∷ (7, device_not_available, 0)
    ∷ (8, double_fault, 0)
    ∷ (9, coprocessor_segment_overrun, 0)
    ∷ (10, invalid_tss, 0)
    ∷ (11, segment_not_present, 0)
    ∷ (12, stack_exception, 0)
    ∷ (13, general_protection, 0)
    ∷ (14, page_fault, 0)
    ∷ (15, intel_reserved, 0)
    ∷ (16, floating_point_error, 0)
    ∷ (17, alignment_check, 0)
    ∷ []

unfoldable pub services : List (ℕ × Entry × ℕ)
services =
    (33, keyboard, 0)
    ∷ (32, clock, 0)
    ∷ (14, mifault, 0)
    ∷ (46, ide, 0)
    ∷ (0x80, system_call, 3)
    ∷ []

module _ (address : Entry → ℕ) where
  unfoldable pub install : List (ℕ × Entry × ℕ) → (ℕ → Gate) → ℕ → Gate
  install [] idt = idt
  install ((vector, entry, level) ∷ calls) idt =
      install calls (set_interrupt_handler vector (address entry) level idt)

  unfoldable pub set_handlers : (ℕ → Gate) → ℕ → Gate
  unfolding exceptions install
  set_handlers = install exceptions

  -- The limit of the table's register, and the table.
  unfoldable pub set_idt : (ℕ → Gate) → ℕ × (ℕ → Gate)
  unfolding services install set_handlers
  set_idt idt = (256 * 8 - 1, install services (set_handlers idt))

-- A character that the source does not show: the last byte of the three that stand in its place.
abbrev pub illegible : ℕ
illegible = 0xBD

unfoldable pub char_map : List ℕ
char_map =
    0
      ∷ 0
      ∷ b'1'
      ∷ b'2'
      ∷ b'3'
      ∷ b'4'
      ∷ b'5'
      ∷ b'6'
      ∷ b'7'
      ∷ b'8'
      ∷ b'9'
      ∷ b'0'
      ∷ 39
      ∷ illegible
      ∷ 0
      ∷ 0
      ∷ b'q'
      ∷ b'w'
      ∷ b'e'
      ∷ b'r'
      ∷ b't'
      ∷ b'y'
      ∷ b'u'
      ∷ b'i'
      ∷ b'o'
      ∷ b'p'
      ∷ b'`'
      ∷ b'+'
      ∷ 0
      ∷ 0
      ∷ b'a'
      ∷ b's'
      ∷ b'd'
      ∷ b'f'
      ∷ b'g'
      ∷ b'h'
      ∷ b'j'
      ∷ b'k'
      ∷ b'l'
      ∷ illegible
      ∷ 0
      ∷ illegible
      ∷ 0
      ∷ illegible
      ∷ b'z'
      ∷ b'x'
      ∷ b'c'
      ∷ b'v'
      ∷ b'b'
      ∷ b'n'
      ∷ b'm'
      ∷ b','
      ∷ b'.'
      ∷ b'-'
      ∷ 0
      ∷ b'*'
      ∷ replicate 15 0
    ++ (b'7'
        ∷ b'8'
        ∷ b'9'
        ∷ b'-'
        ∷ b'4'
        ∷ b'5'
        ∷ b'6'
        ∷ b'+'
        ∷ b'1'
        ∷ b'2'
        ∷ b'3'
        ∷ b'0'
        ∷ 0
        ∷ 0
        ∷ 0
        ∷ b'<'
        ∷ 0
        ∷ replicate 10 0)

-- `keyboard_routine`, given the byte of port 0x60. A read past `char_map` is a fault.
unfoldable pub keyboard_routine : ℕ → Screen → Result Screen
keyboard_routine c s =
    if bit_and c 0x80 == 0
    then elim (get_elem? char_map c) [
      | none ↦ fault
      | some value ↦ ok (printc_xy 0 0 (if value == 0 then b'C' else value) s)
    ]
    else ok s
