-- ===== src/Trap/Keyboard.antt =====
-- Which keys `keyboard_routine` of zeos_full/interrupt.c can take.
use Prim.Native.Nat.{bit_and}
use ze_os_filesystem.Base.{
  ℕ, ◌≤◌, ◌<◌, ◌≡◌, refl, true, some, length, get_elem?, get_elem?-lt, get_elem?-ge, tested_below,
  tested_below_at, ◌==◌, if◌then◌else◌, ok, fault,
}
use ze_os_filesystem.Screen.{Screen, printc_xy}
use ze_os_filesystem.Trap.{char_map, keyboard_routine}

pressed : (c : ℕ) → c < 128 → (bit_and c 0x80 == 0) ≡ true
unfolding tested_below
pressed c h = tested_below_at 128 (λ x. bit_and x 0x80 == 0) c refl h

keys : length char_map ≡ 98
unfolding char_map
keys = refl

-- For the code of a key that is pressed, below 98, `keyboard_routine` shows the character of the map in
-- the corner of the screen, and `C` where the map has none. For a code from 98 to 127 it reads past
-- the map.
pub keyboard_routine-pressed :
    (c : ℕ) (s : Screen)
    → c < 128
    → (c < 98
        → (value : ℕ) × (get_elem? char_map c ≡ some value)
          × (keyboard_routine c s ≡ ok (printc_xy 0 0 (if value == 0 then b'C' else value) s)))
      × (98 ≤ c → keyboard_routine c s ≡ fault)
unfolding keyboard_routine
keyboard_routine-pressed c s key = (
  λ small.
      let (value, e) = get_elem?-lt char_map c (rw keys small) in
      (value, e, rw (pressed c key, e) refl),
  λ large. let e = get_elem?-ge char_map c (rw keys large) in rw (pressed c key, e) refl,
)
