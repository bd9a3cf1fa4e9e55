-- ===== src/Trap/Gates.antt =====
-- The interrupt table after `setIdt` of zeos_full/interrupt.c.
use ze_os_filesystem.Base.{
  ℕ, zero, suc, ◌+◌, ◌*◌, ◌/◌, ◌%◌, ◌^◌, ◌<◌, ◌≡◌, ◌≢◌, refl, Bool, true, List, [], ◌∷◌, ◌++◌,
  Option, none, some, Option-cases, ◌==◌, if◌then◌else◌, update, Bool-cases, ltb, ◌&&◌, ◌||◌, inl,
  inr, ap, sym, ◌∙◌, arith,
}
use ze_os_filesystem.Trap.{
  Gate, Entry, kernel_cs, gate_flags, gate, set_interrupt_handler, exceptions, services, install,
  set_handlers, set_idt,
}

-- What the processor reads in a gate.
abbrev pub offset : Gate → ℕ
offset g = g.low_offset + 2 ^ 16 * g.high_offset

abbrev pub level : Gate → ℕ
level g = g.flags / 2 ^ 13 % 4

-- The last of the calls for a vector.
abbrev pub last_call : ℕ → List (ℕ × Entry × ℕ) → Option (Entry × ℕ)
last_call v [] = none
last_call v ((w, e, l) ∷ calls) = elim (last_call v calls) [
  | some call ↦ some call
  | none ↦ if v == w then some (e, l) else none
]

flags_lem :
    (l : ℕ)
    → l < 4
    → (gate_flags l / 2 ^ 13 % 4 ≡ l)
      × (gate_flags l / 2 ^ 15 ≡ 1)
      × (gate_flags l / 2 ^ 8 % 2 ^ 5 ≡ 0x0E)
unfolding gate_flags
flags_lem zero h = (refl, refl, refl)
flags_lem (suc zero) h = (refl, refl, refl)
flags_lem (suc (suc zero)) h = (refl, refl, refl)
flags_lem (suc (suc (suc zero))) h = (refl, refl, refl)
flags_lem (suc (suc (suc (suc n)))) h = absurd (omega arith)

-- The vectors that a program may call: level 3, and that is the system call's.
abbrev guarded : ℕ × Entry × ℕ → Bool
guarded (w, e, l) = ltb l 4 && ((l == 0) || (w == 0x80))

abbrev all_guarded : List (ℕ × Entry × ℕ) → Bool
all_guarded [] = true
all_guarded (call ∷ calls) = guarded call && all_guarded calls

last_call-guarded :
    (calls : List (ℕ × Entry × ℕ)) (v : ℕ) (e : Entry) (l : ℕ)
    → all_guarded calls ≡ true
    → last_call v calls ≡ some (e, l)
    → guarded (v, e, l) ≡ true
last_call-guarded [] v e l h found = cc
last_call-guarded ((w, e', l') ∷ calls) v e l h found = elim (Option-cases (last_call v calls)) [
  | inl none' ↦ ground arith
  | inr (call, found') ↦ last_call-guarded calls v e l (ground arith) (ground arith)
]

every : all_guarded (exceptions ++ services) ≡ true
unfolding exceptions services
every = refl

module _ (address : Entry → ℕ) where
  abbrev entry_or : Gate → Option (Entry × ℕ) → Gate
  entry_or g none = g
  entry_or g (some (e, l)) = gate (address e) l

  entry_or-cons :
      (o : Option (Entry × ℕ)) (idt : ℕ → Gate) (v w l : ℕ) (e : Entry)
      → entry_or (update idt w (gate (address e) l) v) o
        ≡ entry_or
            (idt v)
            (elim o [ some call ↦ some call | none ↦ if v == w then some (e, l) else none ])
  entry_or-cons (some (e', l')) idt v w l e = refl
  entry_or-cons none idt v w l e = elim (Bool-cases (v == w)) [
    | inl same ↦ rw same refl
    | inr other ↦ rw other refl
  ]

  install-last :
      (calls : List (ℕ × Entry × ℕ)) (idt : ℕ → Gate) (v : ℕ)
      → install address calls idt v ≡ entry_or (idt v) (last_call v calls)
  unfolding install set_interrupt_handler
  install-last [] idt v = refl
  install-last ((w, e, l) ∷ calls) idt v =
      install-last calls (update idt w (gate (address e) l)) v
      ∙ entry_or-cons (last_call v calls) idt v w l e

  install-append :
      (xs ys : List (ℕ × Entry × ℕ)) (idt : ℕ → Gate)
      → install address (xs ++ ys) idt ≡ install address ys (install address xs idt)
  unfolding install
  install-append [] ys idt = refl
  install-append ((w, e, l) ∷ xs) ys idt =
      install-append xs ys (set_interrupt_handler w (address e) l idt)

  -- For routines at 32-bit addresses, after `setIdt`: where one of its calls names a vector, the gate is
  -- that of the last such call. It is present, an interrupt gate of the kernel's segment, leads to
  -- the routine, and has the call's level, which is 0 but for vector 0x80. Every other gate is as it
  -- was.
  pub set_idt-gates :
      (idt : ℕ → Gate) (v : ℕ)
      → ((e : Entry) → address e < 2 ^ 32)
      → ((e : Entry) (l : ℕ)
          → last_call v (exceptions ++ services) ≡ some (e, l)
          → (offset ((set_idt address idt).1 v) ≡ address e)
            × (((set_idt address idt).1 v).segment_selector ≡ kernel_cs)
            × (((set_idt address idt).1 v).flags / 2 ^ 15 ≡ 1)
            × (((set_idt address idt).1 v).flags / 2 ^ 8 % 2 ^ 5 ≡ 0x0E)
            × (level ((set_idt address idt).1 v) ≡ l)
            × (v ≢ 0x80 → l ≡ 0))
        × (last_call v (exceptions ++ services) ≡ none → (set_idt address idt).1 v ≡ idt v)
  unfolding set_idt set_handlers
  set_idt-gates idt v wide =
      let all =
        ap (λ f. f v) (sym (install-append exceptions services idt))
        ∙ install-last (exceptions ++ services) idt v in
      (
        λ e l found.
            let here : (set_idt address idt).1 v ≡ gate (address e) l =
              all ∙ ap (entry_or (idt v)) found in
            let g = last_call-guarded (exceptions ++ services) v e l every found in
            let (lev, present, kind) = flags_lem l (ground arith) in
            let w = wide e in
            (
              ap offset here ∙ omega arith,
              ap Gate.segment_selector here,
              ap (λ k. Gate.flags k / 2 ^ 15) here ∙ present,
              ap (λ k. Gate.flags k / 2 ^ 8 % 2 ^ 5) here ∙ kind,
              ap level here ∙ lev,
              λ other. ground arith,
            ),
        λ found. all ∙ ap (entry_or (idt v)) found,
      )
