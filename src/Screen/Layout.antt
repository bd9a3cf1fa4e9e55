-- ===== src/Screen/Layout.antt =====
-- Where zeos_full/io.c puts the characters that it prints.
use ze_os_filesystem.Base.{
  ℕ, zero, suc, ◌+◌, ◌*◌, ◌%◌, ◌^◌, ◌≤◌, ◌<◌, ◌≡◌, ◌≢◌, refl, List, [], ◌∷◌, length, get_or, All,
  leb, ==_ne, update, update_self, update_other, Bool-cases, inl, inr, ap, ◌∙◌, arith,
}
use ze_os_filesystem.Screen.{Screen, num_columns, num_rows, newline, cell, printc, printk}

-- The place of the next character is on the screen.
pub record InScreen (s : Screen) : Type 0 where
  pub column : s.x < num_columns
  pub row : s.y < num_rows

abbrev pub place : Screen → ℕ
place s = s.y * num_columns + s.x

abbrev pub screen_size : ℕ
screen_size = 2000

printc-InScreen : (c : ℕ) (s : Screen) → InScreen s → InScreen (printc c s)
unfolding printc
printc-InScreen c s h = ground arith

printc-outside :
    (c : ℕ) (s : Screen) (i : ℕ) → InScreen s → screen_size ≤ i → (printc c s).cells i ≡ s.cells i
unfolding printc
printc-outside c s i h far = ground arith

-- From a place on the screen, `printk` of any text ends at a place on the screen, and writes no cell
-- outside of it.
pub printk-InScreen :
    (text : List ℕ) (s : Screen)
    → InScreen s
    → InScreen (printk text s) × ((i : ℕ) → screen_size ≤ i → (printk text s).cells i ≡ s.cells i)
unfolding printk
printk-InScreen [] s h = (h, λ i far. refl)
printk-InScreen (c ∷ text) s h =
    let (inside, kept) = printk-InScreen text (printc c s) (printc-InScreen c s h) in
    (inside, λ i far. kept i far ∙ printc-outside c s i h far)

module _ (c : ℕ) (s : Screen) (h : InScreen s) (plain : c ≢ newline) where
  printc-place : place (printc c s) ≡ (place s + 1) % screen_size
  unfolding printc
  printc-place = ground arith

  printc-cells : (printc c s).cells ≡ update s.cells (place s) (cell c)
  unfolding printc
  printc-cells = elim (Bool-cases (leb num_columns ((s.x + 1) % 2 ^ 8))) [
    | inl full ↦ rw (==_ne c newline plain, full) refl
    | inr more ↦ rw (==_ne c newline plain, more) refl
  ]

printk-elsewhere :
    (text : List ℕ) (s : Screen) (q : ℕ)
    → InScreen s
    → All (λ c. c ≢ newline) text
    → ((i : ℕ) → i < length text → q ≢ (place s + i) % screen_size)
    → (printk text s).cells q ≡ s.cells q
unfolding printk
printk-elsewhere [] s q h plain away = refl
printk-elsewhere (c ∷ text) s q h plain away =
    let p = printc-place c s h plain.0 in
    let at = printc-cells c s h plain.0 in
    printk-elsewhere text (printc c s) q (printc-InScreen c s h) plain.1
      (λ i lt. let far = away (suc i) (omega arith) in omega (arith, p, far))
    ∙ ap (λ f. f q) at
    ∙ update_other s.cells (place s) (cell c) q
        (let here = away 0 (omega arith) in let column = h.column in let row = h.row in omega arith)

printk-at :
    (text : List ℕ) (s : Screen)
    → InScreen s
    → All (λ c. c ≢ newline) text
    → length text ≤ screen_size
    → (i : ℕ) → i < length text
    → (printk text s).cells ((place s + i) % screen_size) ≡ cell (get_or text i 0)
unfolding printk
printk-at [] s h plain fits i lt = absurd (omega arith)
printk-at (c ∷ text) s h plain fits zero lt =
    let p = printc-place c s h plain.0 in
    let column = h.column in
    let row = h.row in
    let here : (place s + 0) % screen_size ≡ place s = omega arith in
    ap (printk text (printc c s)).cells here
    ∙ printk-elsewhere text (printc c s) (place s) (printc-InScreen c s h) plain.1
        (λ j less. omega (arith, p))
    ∙ ap (λ f. f (place s)) (printc-cells c s h plain.0)
    ∙ update_self s.cells (place s) (cell c)
printk-at (c ∷ text) s h plain fits (suc i) lt =
    let p = printc-place c s h plain.0 in
    let e : (place s + suc i) % screen_size ≡ (place (printc c s) + i) % screen_size =
      omega arith in
    ap (printk text (printc c s)).cells e
    ∙ printk-at text (printc c s) (printc-InScreen c s h) plain.1 (omega arith) i (omega arith)

-- From a place on the screen, `printk` of a text of at most 2000 characters, none of them a new line,
-- puts them one behind the other, from the last cell of the screen on in its first, and changes no
-- other cell.
pub printk-consecutive :
    (text : List ℕ) (s : Screen)
    → InScreen s
    → All (λ c. c ≢ newline) text
    → length text ≤ screen_size
    → ((i : ℕ)
        → i < length text
        → (printk text s).cells ((place s + i) % screen_size) ≡ cell (get_or text i 0))
      × ((q : ℕ)
          → ((i : ℕ) → i < length text → q ≢ (place s + i) % screen_size)
          → (printk text s).cells q ≡ s.cells q)
printk-consecutive text s h plain fits =
    (printk-at text s h plain fits, λ q away. printk-elsewhere text s q h plain away)
