-- ===== src/Clock.antt =====
-- The clock on the screen, of zeos_full/zeos_interrupt.c: eighteen ticks are a second.
pub mod Time
pub mod Display
use ze_os_filesystem.Base.{
  ℕ, zero, suc, ◌+◌, leb, ltb, ◌==◌, if◌then◌else◌, update, Result, ok, ◌>>=◌, ◌>>◌, require,
}
use ze_os_filesystem.Base.Int.{pos}
use ze_os_filesystem.Text.{Buffer, itoa}
use ze_os_filesystem.Screen.{cell}

pub record Clock : Type 0 where
  pub clocks : ℕ
  pub segs : ℕ
  pub mins : ℕ

-- `itoa` into an array of four characters: three digits and the 0.
unfoldable pub number : ℕ → Buffer → Result Buffer
number n b = do t ← itoa (pos n) b; require (ltb n 1000); ok t

-- Two digits, in the cells `i` and `i + 1`.
unfoldable pub two_digits : ℕ → ℕ → Buffer → (ℕ → ℕ) → ℕ → ℕ
two_digits i n text cells =
    let one = update cells i (cell (if leb 10 n then text 0 else b'0')) in
    update one (i + 1) (cell (if leb 10 n then text 1 else text 0))

-- The arrays `cmins` and `csegs` hold anything at first.
unfoldable pub zeos_show_clock : Buffer → Buffer → Clock → (ℕ → ℕ) → Result (Clock × (ℕ → ℕ))
zeos_show_clock cmins csegs c cells =
    if c.clocks + 1 == 18
    then (do
      let segs' = if c.segs + 1 == 60 then 0 else c.segs + 1
      let mins' = if c.segs + 1 == 60 then c.mins + 1 else c.mins
      text ← number mins' cmins
      text' ← number segs' csegs
      let shown = update (two_digits 70 mins' text cells) 72 (cell b':')
      ok (record { clocks = 0; segs = segs'; mins = mins' }, two_digits 73 segs' text' shown))
    else ok (record c { clocks = c.clocks + 1 }, cells)

-- `n` ticks. What a call finds in its arrays is `cmins` and `csegs`.
unfoldable pub ticks : ℕ → Buffer → Buffer → Clock → (ℕ → ℕ) → Result (Clock × (ℕ → ℕ))
ticks zero cmins csegs c cells = ok (c, cells)
ticks (suc n) cmins csegs c cells = do
  (c', cells') ← zeos_show_clock cmins csegs c cells
  ticks n cmins csegs c' cells'
