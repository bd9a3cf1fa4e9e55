-- ===== src/Ide/Check/Passes.antt =====
-- On a device that follows the protocol, the test of the disk ends and finds no fault.
use ze_os_filesystem.Base.{
  ℕ, zero, suc, ◌+◌, ◌-◌, ◌/◌, ◌%◌, ◌^◌, ◌≤◌, ◌<◌, ◌≡◌, ◌≢◌, refl, true, ◌||◌, [], ◌∷◌, some, ltb,
  lt→ltb, ltb→lt, ltb→le, tests, ==_self, Bool-cases, inl, inr, ok, ap, ◌∙◌, arith,
}
use ze_os_filesystem.Base.Int.{pos, negsuc}
use ze_os_filesystem.Text.Numbers.{itoa-value}
use ze_os_filesystem.Ide.{Bus, Buffer, Disks, dword}
use ze_os_filesystem.Ide.Drive.{Drive}
use ze_os_filesystem.Ide.Words.{byte, byte-dword}
use ze_os_filesystem.Ide.Transfer.{IsReady, idewrite-contents, ideread-contents}
use ze_os_filesystem.Ide.Refusal.{transfer_refused}
use ze_os_filesystem.Ide.Check.{
  init_block, check_from, write_until, read_until, write_block, read_block, print_count,
  write_tests, read_tests, ide_check_disk,
}

check_from-same :
    (n i : ℕ) (b : Buffer) (val : ℕ)
    → ((j : ℕ) → j < i + n → b j ≡ val)
    → check_from n i b val ≡ negsuc 0
unfolding check_from
check_from-same zero i b val h = refl
check_from-same (suc n) i b val h =
    rw (h i (omega arith), ==_self val)
      (check_from-same n (i + 1) b val (λ j lt. h j (omega arith)))

less_one : (n : ℕ) → n + 1 - 1 ≡ n
less_one n = omega arith

print_count-some :
    (n : ℕ) (b : Buffer) → n < 2 ^ 31 → (t : Buffer) × (print_count n (some b) ≡ ok (some t))
unfolding print_count
print_count-some n b h =
    let (t, len, done, _, _, _) = itoa-value n b (omega arith) in
    (t, rw (lt→ltb n (2 ^ 31) h, done) refl)

module _ {D : Type 0} (bus : Bus D) (drive : Drive bus) (fuel : ℕ) where
  open drive use {view, latency, capacity}

  -- The block holds the byte `c` everywhere.
  abbrev Holds : D → ℕ → ℕ → Type 0
  Holds d k c = (i : ℕ) → i < 128 → (view d).contents k i ≡ dword (λ _. c) i

  module _ (six : 5 < fuel) (few : fuel < 2 ^ 32) (fits : capacity < 2 ^ 28) where
    write_until-all :
        (rounds i : ℕ) (b : Buffer) (d : D)
        → IsReady bus drive fuel d
        → i ≤ capacity
        → capacity < i + rounds
        → (d' : D) × (write_until bus rounds fuel i b d ≡ ok (capacity + 1, d'))
          × IsReady bus drive fuel d'
    unfolding write_until
    write_until-all zero i b d ready le more = absurd (omega arith)
    write_until-all (suc rounds) i b d ready le more = elim (Bool-cases (ltb i capacity)) [
      | inl inside ↦
          let (d1, done, _, _, ready1) =
            idewrite-contents bus drive fuel i b d ready (ground arith)
              (ltb→lt i capacity inside) in
          let (d', rest, ready') =
            write_until-all rounds (i + 1) b d1 ready1 (omega tests) (omega arith) in
          let next : (i + 1) % 2 ^ 32 ≡ i + 1 = omega arith in (d', rw (done, next) rest, ready')
      | inr end ↦
          let past = ltb→le i capacity end in
          let (_, (d', done, _, ready')) =
            transfer_refused bus drive fuel i b d ready six few (omega arith) past in
          let last : (i + 1) % 2 ^ 32 ≡ capacity + 1 = omega arith in
          (d', rw (done, last) refl, ready')
    ]

    read_until-all :
        (rounds i : ℕ) (b : Buffer) (d : D)
        → IsReady bus drive fuel d
        → i ≤ capacity
        → capacity < i + rounds
        → (b' : Buffer) × (d' : D) × (read_until bus rounds fuel i (some b) d
            ≡ ok (capacity + 1, some b', d'))
          × IsReady bus drive fuel d'
    unfolding read_until
    read_until-all zero i b d ready le more = absurd (omega arith)
    read_until-all (suc rounds) i b d ready le more = elim (Bool-cases (ltb i capacity)) [
      | inl inside ↦
          let (b1, d1, done, _, _, _, ready1) =
            ideread-contents bus drive fuel i b d ready (ground arith) (ltb→lt i capacity inside) in
          let (b', d', rest, ready') =
            read_until-all rounds (i + 1) b1 d1 ready1 (omega tests) (omega arith) in
          let next : (i + 1) % 2 ^ 32 ≡ i + 1 = omega arith in
          (b', d', rw (done, next) rest, ready')
      | inr end ↦
          let past = ltb→le i capacity end in
          let ((d', done, _, ready'), _) =
            transfer_refused bus drive fuel i b d ready six few (omega arith) past in
          let last : (i + 1) % 2 ^ 32 ≡ capacity + 1 = omega arith in
          (b, d', rw (done, last) refl, ready')
    ]

    write_block-Holds :
        (c k : ℕ) (b : Buffer) (d : D)
        → IsReady bus drive fuel d
        → k < capacity
        → (d' : D) × (write_block bus fuel c k (some b) d ≡ ok (some (init_block c b), d'))
          × Holds d' k c
          × ((other x : ℕ) → other ≢ k → Holds d other x → Holds d' other x)
          × IsReady bus drive fuel d'
    unfolding write_block
    write_block-Holds c k b d ready inside =
        let (d', done, here, others, ready') =
          idewrite-contents bus drive fuel k (init_block c b) d ready (omega arith) inside in
        (
          d',
          rw done refl,
          (λ i lt. here i lt ∙ ground arith),
          (λ other x ne h i lt. ap (λ f. f i) (others other ne) ∙ h i lt),
          ready',
        )

    read_block-Holds :
        (c k : ℕ) (b : Buffer) (d : D)
        → c < 2 ^ 8
        → IsReady bus drive fuel d
        → k < capacity
        → Holds d k c
        → (b' : Buffer) × (d' : D) × (read_block bus fuel c k (some b) d ≡ ok (true, some b', d'))
          × ((other x : ℕ) → Holds d other x → Holds d' other x)
          × IsReady bus drive fuel d'
    unfolding read_block
    read_block-Holds c k b d small ready inside holds =
        let (b', d', done, bytes, _, same, ready') =
          ideread-contents bus drive fuel k (init_block 0xff b) d ready (omega arith) inside in
        let value = λ (j : ℕ) (lt : j < 512).
          bytes j lt
          ∙ ap (λ v. byte v (j % 4)) (holds (j / 4) (omega arith))
          ∙ byte-dword (λ _. c) (λ i. small) j in
        let fine = check_from-same 512 0 b' c (λ j lt. value j (omega arith)) in
        (
          b',
          d',
          rw (done, fine) refl,
          (λ other x h i lt. ap (λ f. f other i) same ∙ h i lt),
          ready',
        )

    write_tests-Holds :
        (b : Buffer) (d : D)
        → IsReady bus drive fuel d
        → 6 ≤ capacity
        → (b' : Buffer) × (d' : D) × (write_tests bus fuel (some b) d ≡ ok (some b', d'))
          × Holds d' 1 0xab
          × Holds d' 3 0xca
          × Holds d' 5 0xab
          × IsReady bus drive fuel d'
    unfolding write_tests
    write_tests-Holds b d r large =
        let b1 = init_block 0xab b in
        let b2 = init_block 0xca b1 in
        let (d1, done1, h1, _, r1) = write_block-Holds 0xab 1 b d r (omega arith) in
        let (d2, done2, h3, keep2, r2) = write_block-Holds 0xca 3 b1 d1 r1 (omega arith) in
        let (d3, done3, h5, keep3, r3) = write_block-Holds 0xab 5 b2 d2 r2 (omega arith) in
        (
          init_block 0xab b2,
          d3,
          rw (done1, done2) done3,
          keep3 1 0xab (omega arith) (keep2 1 0xab (omega arith) h1),
          keep3 3 0xca (omega arith) h3,
          h5,
          r3,
        )

    read_tests-true :
        (b : Buffer) (d : D)
        → IsReady bus drive fuel d
        → 6 ≤ capacity
        → Holds d 1 0xab
        → Holds d 3 0xca
        → Holds d 5 0xab
        → (d' : D) × (read_tests bus fuel (some b) d ≡ ok (true ∷ true ∷ true ∷ true ∷ [], d'))
          × IsReady bus drive fuel d'
    unfolding read_tests
    read_tests-true b d r large h1 h3 h5 =
        let (b1, d1, done1, keep1, r1) =
          read_block-Holds 0xab 5 b d (omega arith) r (omega arith) h5 in
        let (b2, d2, done2, keep2, r2) =
          read_block-Holds 0xca 3 b1 d1 (omega arith) r1 (omega arith) (keep1 3 0xca h3) in
        let (b3, d3, done3, _, r3) =
          read_block-Holds 0xab 1 b2 d2 (omega arith) r2 (omega arith)
            (keep2 1 0xab (keep1 1 0xab h1)) in
        let (d4, done4, h2, _, r4) = write_block-Holds 0x22 2 b3 d3 r3 (omega arith) in
        let (b5, d5, done5, _, r5) =
          read_block-Holds 0x22 2 (init_block 0x22 b3) d4 (omega arith) r4 (omega arith) h2 in
        (d5, rw (done1, done2, done3, done4, done5) refl, r5)

    -- With a disk found, on a device with 6 blocks or more, but fewer than 2 ^ 28, that takes the next
    -- command within the fuel, which is above 5 and below 2 ^ 32, and with more rounds than blocks: the
    -- test of the disk ends with 0, counts the blocks of the device, and finds each of the four blocks
    -- that it reads back as it was written.
    pub ide_check_disk-passes :
        (rounds : ℕ) (disks : Disks) (proso_blocks : ℕ) (b : Buffer) (d : D)
        → IsReady bus drive fuel d
        → (disks.havedisk0 || disks.havedisk1) ≡ true
        → 6 ≤ capacity
        → capacity < rounds
        → (d' : D) × (ide_check_disk bus rounds fuel disks proso_blocks b d
            ≡ ok (pos 0, capacity, true ∷ true ∷ true ∷ true ∷ [], d'))
          × IsReady bus drive fuel d'
    unfolding ide_check_disk
    ide_check_disk-passes rounds disks proso_blocks b d r found large more =
        let first = init_block 0xff b in
        let (d1, done1, r1) = write_until-all rounds 0 first d r (omega arith) (omega arith) in
        let (b1, print1) = print_count-some (capacity + 1 - 1) first (omega arith) in
        let (b2, d2, done2, r2) = read_until-all rounds 0 b1 d1 r1 (omega arith) (omega arith) in
        let (b3, print2) = print_count-some (capacity + 1 - 1) b2 (omega arith) in
        let (b4, d3, done3, h1, h3, h5, r3) = write_tests-Holds b3 d2 r2 large in
        let (d', done4, r') = read_tests-true b4 d3 r3 large h1 h3 h5 in
        (
          d',
          rw (found, done1, print1, done2, print2, done3, done4) refl
              ∙ ap (λ n. ok (pos 0, n, true ∷ true ∷ true ∷ true ∷ [], d')) (less_one capacity),
          r',
        )
