-- ===== src/Ide/Words.antt =====
-- The data of one sector: `insl` and `outsl` as disk-driver/ide.c calls them.
use ze_os_filesystem.Base.{
  ℕ, zero, suc, ◌+◌, ◌*◌, ◌/◌, ◌%◌, ◌^◌, ◌≤◌, ◌<◌, ◌≡◌, ◌≢◌, ◌&&◌, ◌==◌, leb, ltb, if◌then◌else◌,
  update, update_self, update_other, ==_iff, ap, sym, ◌∙◌, arith, tests, Bool-cases, ltb→lt, ◌⊎◌,
  inl, inr,
}
use ze_os_filesystem.Ide.{Bus, Buffer, dword, put_dword, insl, outsl}
use ze_os_filesystem.Ide.Drive.{View, Phase, Drive}

-- Byte `c` of a double word.
abbrev pub byte : ℕ → ℕ → ℕ
byte v c =
    if c == 0
    then v % 2 ^ 8
    else (if c == 1
        then v / 2 ^ 8 % 2 ^ 8
        else (if c == 2 then v / 2 ^ 16 % 2 ^ 8 else v / 2 ^ 24 % 2 ^ 8))

-- The buffer once the double words from `i` to 127 of `words` are in it.
abbrev pub filled : (ℕ → ℕ) → ℕ → Buffer → Buffer
filled words i b j = if leb (4 * i) j && ltb j 512 then byte (words (j / 4)) (j % 4) else b j

put_dword_lem :
    (b : Buffer) (i v j : ℕ)
    → put_dword b i v j ≡ (if leb (4 * i) j && ltb j (4 * i + 4) then byte v (j % 4) else b j)
put_dword_lem b i v j = ground arith

word-cases :
    (i j : ℕ) → ((j < 4 * i) ⊎ (4 * i + 4 ≤ j)) ⊎ ((j / 4 ≡ i) × (4 * i ≤ j) × (j < 4 * i + 4))
word-cases i j = elim (Bool-cases (ltb j (4 * i))) [
  | inl low ↦ inl (inl (ltb→lt j (4 * i) low))
  | inr up ↦ elim (Bool-cases (ltb j (4 * i + 4))) [
    | inl here ↦ inr (omega tests, omega tests, omega tests)
    | inr high ↦ inl (inr (omega tests))
  ]
]

filled-last :
    (words : ℕ → ℕ) (i : ℕ) (b : Buffer) (v : ℕ)
    → i + 1 ≡ 128
    → v ≡ words i
    → (j : ℕ) → put_dword b i v j ≡ filled words i b j
filled-last words i b v e same j = elim (word-cases i j) [
  | inl outside ↦ ground arith
  | inr here ↦ let w : words (j / 4) ≡ v = ap words here.0 ∙ sym same in rw w (ground arith)
]

filled-step :
    (words : ℕ → ℕ) (i : ℕ) (b : Buffer) (v : ℕ)
    → i + 1 < 128
    → v ≡ words i
    → (j : ℕ) → filled words (i + 1) (put_dword b i v) j ≡ filled words i b j
filled-step words i b v e same j = elim (word-cases i j) [
  | inl outside ↦ ground arith
  | inr here ↦ let w : words (j / 4) ≡ v = ap words here.0 ∙ sym same in rw w (ground arith)
]

-- The words of a block once those from `i` to 127 are written from a buffer.
abbrev pub stored : Buffer → ℕ → (ℕ → ℕ) → ℕ → ℕ
stored b i words j = if leb i j && ltb j 128 then dword b j else words j

stored-last :
    (b : Buffer) (i : ℕ) (words : ℕ → ℕ) (j : ℕ)
    → i + 1 ≡ 128
    → update words i (dword b i) j ≡ stored b i words j
stored-last b i words j e = elim (Bool-cases (j == i)) [
  | inl here ↦ let k : j ≡ i = (==_iff j i).0 here in rw k (ground arith)
  | inr away ↦ ground arith
]

stored-step :
    (b : Buffer) (i : ℕ) (words : ℕ → ℕ) (j : ℕ)
    → i + 1 < 128
    → stored b (i + 1) (update words i (dword b i)) j ≡ stored b i words j
stored-step b i words j e = elim (Bool-cases (j == i)) [
  | inl here ↦ let k : j ≡ i = (==_iff j i).0 here in rw k (ground arith)
  | inr away ↦ ground arith
]

module _ (b : Buffer) (bytes : (i : ℕ) → b i < 2 ^ 8) where
  byte_at : (q c : ℕ) → c < 4 → byte (dword b q) c ≡ b (4 * q + c)
  byte_at q zero h = let z : 4 * q + 0 ≡ 4 * q = omega arith in rw z (omega (arith, bytes (4 * q)))
  byte_at q (suc zero) h = omega (arith, bytes (4 * q), bytes (4 * q + 1))
  byte_at q (suc (suc zero)) h = omega (arith, bytes (4 * q), bytes (4 * q + 1), bytes (4 * q + 2))
  byte_at q (suc (suc (suc zero))) h =
      omega (arith, bytes (4 * q), bytes (4 * q + 1), bytes (4 * q + 2), bytes (4 * q + 3))
  byte_at q (suc (suc (suc (suc n)))) h = absurd (omega arith)

  pub byte-dword : (j : ℕ) → byte (dword b (j / 4)) (j % 4) ≡ b j
  byte-dword j =
      let e : 4 * (j / 4) + j % 4 ≡ j = omega arith in
      byte_at (j / 4) (j % 4) (omega arith) ∙ ap b e

module _ {D : Type 0} (bus : Bus D) (drive : Drive bus) where
  open drive use {view, latency, read_word, read_last, write_word, write_last}

  pub insl_lem :
      (n i k : ℕ) (b : Buffer) (d : D)
      → i + suc n ≡ 128
      → (view d).pending ≡ 0
      → (view d).phase ≡ Phase.reading k i
      → ((j : ℕ) → (insl bus (suc n) i b d).0 j ≡ filled ((view d).contents k) i b j)
        × ((p : ℕ) × (p ≤ latency)
            × (view (insl bus (suc n) i b d).1
                ≡ record (view d) { pending = p; phase = Phase.idle }))
  unfolding insl
  insl_lem zero i k b d last free phase =
      let (v, (p, small, e)) = read_last d k i free phase (omega arith) in
      (filled-last ((view d).contents k) i b (bus.inl d).0 (omega arith) v, (p, small, e))
  insl_lem (suc n) i k b d more free phase =
      let (v, e) = read_word d k i free phase (omega arith) in
      let b' = put_dword b i (bus.inl d).0 in
      let words = (view d).contents k in
      let (bytes, (p, small, after)) =
        insl_lem n (i + 1) k b' (bus.inl d).1 (omega arith) (ap View.pending e ∙ free)
          (ap View.phase e) in
      let same : (view (bus.inl d).1).contents k ≡ words = ap (λ w. View.contents w k) e in
      (
        λ j.
            bytes j
            ∙ ap {A = ℕ → ℕ} {B = ℕ} (λ w. filled w (i + 1) b' j) same
            ∙ filled-step words i b (bus.inl d).0 (omega arith) v j,
        (
          p,
          small,
          after ∙ ap {A = View} {B = View} (λ w. record w { pending = p; phase = Phase.idle }) e,
        ),
      )

  pub outsl_lem :
      (n i k : ℕ) (b : Buffer) (d : D)
      → i + suc n ≡ 128
      → (view d).pending ≡ 0
      → (view d).phase ≡ Phase.writing k i
      → (p : ℕ) × (p ≤ latency)
        × (contents : ℕ → ℕ → ℕ) × (view (outsl bus (suc n) i b d)
            ≡ record (view d) { pending = p; phase = Phase.idle; contents = contents })
        × ((j : ℕ) → contents k j ≡ stored b i ((view d).contents k) j)
        × ((other : ℕ) → other ≢ k → contents other ≡ (view d).contents other)
  unfolding outsl
  outsl_lem zero i k b d last free phase =
      let (p, small, e) = write_last d k i (dword b i) free phase (omega arith) in
      let words = (view d).contents k in
      (
        p,
        small,
        update (view d).contents k (update words i (dword b i)),
        e,
        (λ j.
            ap (λ f. f j) (update_self (view d).contents k (update words i (dword b i)))
            ∙ stored-last b i words j last),
        λ other ne. update_other (view d).contents k _ other ne,
      )
  outsl_lem (suc n) i k b d more free phase =
      let e = write_word d k i (dword b i) free phase (omega arith) in
      let words = (view d).contents k in
      let (p, small, contents, after, here, others) =
        outsl_lem n (i + 1) k b (bus.outl (dword b i) d) (omega arith) (ap View.pending e ∙ free)
          (ap View.phase e) in
      let mid = ap View.contents e in
      (
        p,
        small,
        contents,
        after
            ∙ ap {A = View} {B = View}
                (λ w. record w { pending = p; phase = Phase.idle; contents = contents }) e,
        (λ j.
            here j
            ∙ ap {A = ℕ → ℕ → ℕ} {B = ℕ} (λ c. stored b (i + 1) (c k) j) mid
            ∙ ap {A = ℕ → ℕ} {B = ℕ} (λ w. stored b (i + 1) w j)
                (update_self (view d).contents k (update words i (dword b i)))
            ∙ stored-step b i words j (omega arith)),
        λ other ne.
            others other ne ∙ ap (λ c. c other) mid ∙ update_other (view d).contents k _ other ne,
      )
