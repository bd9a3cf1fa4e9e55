-- ===== src/Examples/Drives.antt =====
-- A small disk for the driver of disk-driver/ide.c: eight blocks, and busy for two readings of the
-- status after a command or a transfer.
mod Runs
use Prim.Native.Nat.{bit_and}
use ze_os_filesystem.Base.{
  ℕ, zero, suc, ◌+◌, ◌≤◌, ◌<◌, ◌≡◌, refl, Bool, true, false, ◌||◌, ltb, lt→ltb, le→ltb, ◌==◌,
  if◌then◌else◌, update, Bool-cases, inl, inr, ap, sym, ◌∙◌, arith,
}
use ze_os_filesystem.Ide.{
  Bus, port_count, port_lbal, port_lbam, port_lbah, port_dev, port_cmd, port_ctl, cmd_read,
  cmd_write,
}
use ze_os_filesystem.Ide.Drive.{
  View, Phase, Drive, address, accepts, is_register, status_bits, IsAccepting,
}

abbrev pub blocks : ℕ
blocks = 8

abbrev pub wait : ℕ
wait = 2

abbrev status_of : ℕ → View → ℕ × View
status_of zero v = (status_bits v.phase, v)
status_of (suc n) v = (0x80, record v { pending = n })

abbrev transfer_of : ℕ → ℕ → Phase
transfer_of command k = if command == cmd_read then Phase.reading k 0 else Phase.writing k 0

abbrev command_to : ℕ → View → View
command_to command v = record v {
  pending = wait;
  phase =
      if ltb (address v.regs) blocks then transfer_of command (address v.regs) else Phase.failed;
}

abbrev next_read : ℕ → ℕ → View → View
next_read k i v = record v {
  pending = if ltb (i + 1) 128 then v.pending else wait;
  phase = if ltb (i + 1) 128 then Phase.reading k (i + 1) else Phase.idle;
}

abbrev send : Phase → View → ℕ × View
send (Phase.reading k i) v = (v.contents k i, next_read k i v)
send _ v = (0, v)

abbrev store : Phase → ℕ → View → View
store (Phase.writing k i) x v = record v {
  pending = if ltb (i + 1) 128 then v.pending else wait;
  phase = if ltb (i + 1) 128 then Phase.writing k (i + 1) else Phase.idle;
  contents = update v.contents k (update (v.contents k) i x);
}
store _ x v = v

abbrev pub small_bus : Bus View
small_bus = record {
  inb = λ p v. if p == port_ctl then status_of v.pending v else (0x50, v);
  outb = λ p x v.
      if p == port_ctl
      then v
      else (if p == port_cmd then command_to x v else record v { regs = update v.regs p x });
  inl = λ v. send v.phase v;
  outl = λ x v. store v.phase x v;
}

status_bits-byte : (p : Phase) → status_bits p < 256
status_bits-byte Phase.idle = omega arith
status_bits-byte Phase.failed = omega arith
status_bits-byte (Phase.reading k i) = omega arith
status_bits-byte (Phase.writing k i) = omega arith

pub status_of-byte : (n : ℕ) (v : View) → (status_of n v).0 < 256
status_of-byte zero v = status_bits-byte v.phase
status_of-byte (suc n) v = omega arith

pub status_bits-masked : (p : Phase) → bit_and (status_bits p) 0xC9 ≡ status_bits p
status_bits-masked Phase.idle = refl
status_bits-masked Phase.failed = refl
status_bits-masked (Phase.reading k i) = refl
status_bits-masked (Phase.writing k i) = refl

pub register-other :
    (p : ℕ) → is_register p ≡ true → (p == port_ctl ≡ false) × (p == port_cmd ≡ false)
register-other p h = ground arith

pub last-word : (i : ℕ) → i + 1 ≡ 128 → ltb (i + 1) 128 ≡ false
last-word i last = ground arith

abbrev pub small_drive : Drive small_bus
small_drive = record {
  view = λ v. v;
  latency = wait;
  capacity = blocks;
  status_byte = λ v. status_of-byte v.pending v;
  status_busy = λ v n e. rw e (refl, refl);
  status_free = λ v e. rw e (status_bits-masked v.phase, refl);
  set_register = λ v p x h e can. let (a, b) = register-other p h in rw (a, b) refl;
  set_control = λ v. refl;
  start_read = λ v e can selects inside.
      (wait, omega arith, rw (lt→ltb (address v.regs) blocks inside) refl);
  start_write = λ v e can selects inside.
      (wait, omega arith, rw (lt→ltb (address v.regs) blocks inside) refl);
  refuse = λ v command known e can selects beyond.
      (wait, omega arith, rw (le→ltb (address v.regs) blocks beyond) refl);
  read_word = λ v k i e phase more. rw (phase, lt→ltb (i + 1) 128 more, e) (refl, refl);
  read_last = λ v k i e phase last. rw (phase, last-word i last) (refl, (wait, omega arith, refl));
  write_word = λ v k i x e phase more. rw (phase, lt→ltb (i + 1) 128 more, e) refl;
  write_last = λ v k i x e phase last. (wait, omega arith, rw (phase, last-word i last) refl);
}
