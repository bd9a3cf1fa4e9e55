-- ===== src/Clock/Time.antt =====
-- The time that the clock of zeos_full/zeos_interrupt.c keeps.
use ze_os_filesystem.Base.{
  ℕ, zero, suc, ◌+◌, ◌*◌, ◌/◌, ◌%◌, ◌^◌, ◌≤◌, ◌<◌, ◌≡◌, refl, ◌==◌, if◌then◌else◌, Bool-cases, inl,
  inr, ◌⊎◌, ◌≢◌, false, true, ==_iff, sym, subst, ok, fault, ap, ◌∙◌, arith,
}
use ze_os_filesystem.Text.{Buffer}
use ze_os_filesystem.Clock.Display.{
  Shown, painted, painted_frame, painted-Shown, number_lem, number-overflow,
}
use ze_os_filesystem.Clock.{Clock, zeos_show_clock, ticks}

-- The counters are within their ranges.
pub record InRange (c : Clock) : Type 0 where
  pub clocks : c.clocks < 18
  pub segs : c.segs < 60

abbrev pub total : Clock → ℕ
total c = c.clocks + 18 * (c.segs + 60 * c.mins)

-- The ticks of a thousand minutes.
abbrev pub limit : ℕ
limit = 1080000

-- The counters after a tick.
abbrev after : Clock → Clock
after c =
    if c.clocks + 1 == 18
    then record {
      clocks = 0;
      segs = if c.segs + 1 == 60 then 0 else c.segs + 1;
      mins = if c.segs + 1 == 60 then c.mins + 1 else c.mins;
    }
    else record c { clocks = c.clocks + 1 }

after_lem : (c : Clock) → InRange c → InRange (after c) × (total (after c) ≡ total c + 1)
after_lem c h = ground arith

zeos_show_clock-after :
    (cmins csegs : Buffer) (c : Clock) (cells : ℕ → ℕ)
    → InRange c
    → total c + 1 < limit
    → (cells' : ℕ → ℕ) × (zeos_show_clock cmins csegs c cells ≡ ok (after c, cells'))
      × ((i : ℕ) → (i < 70) ⊎ (74 < i) → cells' i ≡ cells i)
      × ((c.clocks + 1 == 18) ≡ false → cells' ≡ cells)
      × ((c.clocks + 1 == 18) ≡ true → (after c).mins < 100 → Shown (after c) cells')
unfolding zeos_show_clock
zeos_show_clock-after cmins csegs c cells h few = elim (Bool-cases (c.clocks + 1 == 18)) [
  | inr running ↦ (
    cells,
    rw (running, zeos_show_clock) refl,
    (λ i away. refl),
    (λ _. refl),
    λ full. absurd (let never = sym running ∙ full in cc),
  )
  | inl second ↦
      let segs' = if c.segs + 1 == 60 then 0 else c.segs + 1 in
      let mins' = if c.segs + 1 == 60 then c.mins + 1 else c.mins in
      let (text, done) = number_lem mins' cmins (ground arith) in
      let (text', done') = number_lem segs' csegs (ground arith) in
      (
        painted mins' segs' text text' cells,
        rw (second, done, done', zeos_show_clock) refl,
        painted_frame mins' segs' text text' cells,
        (λ running. absurd (let never = sym running ∙ second in cc)),
        λ _. rw second (λ few'.
            painted-Shown (record { clocks = 0; segs = segs'; mins = mins' }) cmins csegs text text'
              cells few' (ground arith) done done'),
      )
]

abbrev pub zero_clock : Clock
zero_clock = record { clocks = 0; segs = 0; mins = 0 }

-- What the screen shows after the ticks of a clock that began at zero over `old`.
record Painted (old : ℕ → ℕ) (c : Clock) (cells : ℕ → ℕ) : Type 0 where
  frame : (i : ℕ) → (i < 70) ⊎ (74 < i) → cells i ≡ old i
  early : total c < 18 → cells ≡ old
  late : 18 ≤ total c → c.mins < 100 → Shown c cells

Shown-running :
    (c : Clock) (cells : ℕ → ℕ)
    → (c.clocks + 1 == 18) ≡ false
    → Shown c cells
    → Shown (after c) cells
Shown-running c cells running shown = rw running (record {
  tens_of_minutes = shown.tens_of_minutes;
  minutes = shown.minutes;
  colon = shown.colon;
  tens_of_seconds = shown.tens_of_seconds;
  seconds = shown.seconds;
})

Painted-after :
    (old : ℕ → ℕ) (cmins csegs : Buffer) (c : Clock) (cells : ℕ → ℕ)
    → InRange c
    → total c + 1 < limit
    → Painted old c cells
    → (cells' : ℕ → ℕ) × (zeos_show_clock cmins csegs c cells ≡ ok (after c, cells'))
      × Painted old (after c) cells'
Painted-after old cmins csegs c cells h few so_far =
    let (cells', done, frame, quiet, shown) = zeos_show_clock-after cmins csegs c cells h few in
    let (h', more) = after_lem c h in
    let column = h.clocks in
    (
      cells',
      done,
      elim (Bool-cases (c.clocks + 1 == 18)) [
        | inl second ↦ record {
          frame = λ i away. frame i away ∙ so_far.frame i away;
          early = λ soon. absurd (omega (arith, (==_iff (c.clocks + 1) 18).0 second, more, soon));
          late = λ long. shown second;
        }
        | inr running ↦
            let odd : c.clocks + 1 ≢ 18 = λ e. let hit = (==_iff (c.clocks + 1) 18).1 e in cc in
            record {
              frame = λ i away. frame i away ∙ so_far.frame i away;
              early = λ soon. quiet running ∙ so_far.early (omega (arith, more, soon));
              late = λ long few'.
                  let same : (after c).mins ≡ c.mins = rw running refl in
                  let before : c.mins < 100 = subst (λ k. k < 100) same few' in
                  subst (Shown (after c)) (sym (quiet running)) (
                    Shown-running c cells running
                      (so_far.late (omega (arith, more, long, odd)) before));
            }
      ],
    )

ticks-Painted :
    (n : ℕ) (old : ℕ → ℕ) (cmins csegs : Buffer) (c : Clock) (cells : ℕ → ℕ)
    → InRange c
    → total c + n < limit
    → Painted old c cells
    → (c' : Clock) × (cells' : ℕ → ℕ) × (ticks n cmins csegs c cells ≡ ok (c', cells'))
      × InRange c'
      × (total c' ≡ total c + n)
      × Painted old c' cells'
unfolding ticks
ticks-Painted zero old cmins csegs c cells h few so_far = (c, cells, refl, h, omega arith, so_far)
ticks-Painted (suc n) old cmins csegs c cells h few so_far =
    let (cells1, done, painted1) = Painted-after old cmins csegs c cells h (omega arith) so_far in
    let (h1, more) = after_lem c h in
    let (c', cells', rest, h', sum, painted') =
      ticks-Painted n old cmins csegs (after c) cells1 h1 (omega (arith, more, few)) painted1 in
    (c', cells', rw done rest, h', omega (arith, sum, more), painted')

-- From a clock at zero, for a number of ticks below those of a thousand minutes, whatever the arrays
-- and the screen hold: the calls return, and the counters are then the ticks left over from the last
-- second, the seconds left over from the last minute, and the minutes. No cell of the screen but the
-- five from 70 on has changed, and none at all in the first second. From then on, while the minutes
-- are below 100, the five cells are the minutes and the seconds of the counters, with two digits each
-- and a colon between them.
pub ticks-time :
    (n : ℕ) (cmins csegs : Buffer) (cells : ℕ → ℕ)
    → n < limit
    → let c : Clock = record { clocks = n % 18; segs = n / 18 % 60; mins = n / 1080 } in
      (cells' : ℕ → ℕ) × (ticks n cmins csegs zero_clock cells ≡ ok (c, cells'))
      × ((i : ℕ) → (i < 70) ⊎ (74 < i) → cells' i ≡ cells i)
      × (n < 18 → cells' ≡ cells)
      × (18 ≤ n → n < 108000 → Shown c cells')
ticks-time n cmins csegs cells few =
    let (c', cells', done, h, sum, so_far) =
      ticks-Painted n cells cmins csegs zero_clock cells
        (record { clocks = omega arith; segs = omega arith }) (omega arith)
        (record {
          frame = λ i away. refl;
          early = λ soon. refl;
          late = λ long. absurd (omega arith);
        }) in
    let column = h.clocks in
    let segs = h.segs in
    let same : c' ≡ record { clocks = n % 18; segs = n / 18 % 60; mins = n / 1080 } =
      ground arith in
    (
      cells',
      done ∙ ap (λ k. ok (k, cells')) same,
      so_far.frame,
      (λ soon. so_far.early (omega (arith, sum, soon))),
      λ long short.
          subst (λ k. Shown k cells') same
            (so_far.late (omega (arith, sum, long)) (omega (arith, sum, short))),
    )

-- At the last tick of the thousandth minute: the digits of the minutes do not fit into their array.
pub zeos_show_clock-overflow :
    (cmins csegs : Buffer) (c : Clock) (cells : ℕ → ℕ)
    → c.clocks ≡ 17
    → c.segs ≡ 59
    → 999 ≤ c.mins
    → c.mins + 1 < 2 ^ 31
    → zeos_show_clock cmins csegs c cells ≡ fault
unfolding zeos_show_clock
zeos_show_clock-overflow cmins csegs c cells last minute long small =
    let over = number-overflow (c.mins + 1) cmins (omega arith) small in
    rw (last, minute, over, zeos_show_clock) refl
