-- ===== src/Ide/Status.antt =====
-- What disk-driver/ide.c reads off a byte of status.
use Prim.Native.Nat.{bit_and}
use ze_os_filesystem.Base.{
  tested_below, tested_below_at, ℕ, ◌<◌, ◌≡◌, refl, Bool, true, false, not, ◌&&◌, ◌||◌, ◌==◌,
  ==_iff, arith,
}
use ze_os_filesystem.Ide.{is_ready, is_requesting, is_error}
use ze_os_filesystem.Ide.Drive.{Phase, accepts, status_bits}

abbrev implies : Bool → Bool → Bool
implies a b = not a || b

implies_elim : (a b : Bool) → implies a b ≡ true → a ≡ true → b ≡ true
implies_elim true b h e = h
implies_elim false b h e = cc

module _ (r : ℕ) (byte : r < 256) where
  -- What one value of some bits says of a test.
  reads :
      (mask v : ℕ) (test : ℕ → Bool)
      → tested_below 256 (λ x. implies (bit_and x mask == v) (test x)) ≡ true
      → bit_and r mask ≡ v
      → test r ≡ true
  reads mask v test table e =
      implies_elim (bit_and r mask == v) (test r) (tested_below_at 256 _ r table byte)
        ((==_iff (bit_and r mask) v).1 e)

  abbrev quiet : ℕ → Bool
  quiet x = not (is_ready x) && not (is_requesting x) && not (is_error x)

  pub busy_lem :
      bit_and r 0x81 ≡ 0x80
      → (is_ready r ≡ false) × (is_requesting r ≡ false) × (is_error r ≡ false)
  unfolding tested_below is_ready is_requesting is_error
  busy_lem e = let h = reads 0x81 0x80 quiet refl e in ground arith

  pub free_lem :
      (p : Phase)
      → bit_and r 0xC9 ≡ status_bits p
      → (is_ready r ≡ true) × (is_requesting r ≡ not (accepts p))
  unfolding tested_below is_ready is_requesting
  free_lem Phase.idle e =
      let h = reads 0xC9 0x40 (λ x. is_ready x && not (is_requesting x)) refl e in ground arith
  free_lem Phase.failed e =
      let h = reads 0xC9 0x41 (λ x. is_ready x && not (is_requesting x)) refl e in ground arith
  free_lem (Phase.reading k i) e =
      let h = reads 0xC9 0x48 (λ x. is_ready x && is_requesting x) refl e in ground arith
  free_lem (Phase.writing k i) e =
      let h = reads 0xC9 0x48 (λ x. is_ready x && is_requesting x) refl e in ground arith

  pub failed_lem : bit_and r 0xC9 ≡ 0x41 → is_error r ≡ true
  unfolding tested_below is_error
  failed_lem e = reads 0xC9 0x41 is_error refl e
