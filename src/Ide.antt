-- ===== src/Ide.antt =====
-- disk-driver/ide.c: the driver of the disk, over the ports of the processor. The device behind the
-- ports is a parameter. A loop on the status register takes fuel.
pub mod Drive
pub mod Status
pub mod Wait
pub mod Words
pub mod Poll
pub mod Registers
pub mod Transfer
pub mod Refusal
pub mod Binary
pub mod Init
pub mod Refine
pub mod Check
use Prim.Native.Nat.{bit_and, bit_or}
use ze_os_filesystem.Base.{
  ℕ, zero, suc, ◌+◌, ◌-◌, ◌*◌, ◌/◌, ◌%◌, ◌^◌, Bool, true, false, not, ◌&&◌, ◌||◌, Option, none,
  some, leb, ltb, ◌==◌, if◌then◌else◌, update, Result, ok, out_of_fuel, ◌>>=◌,
}
use ze_os_filesystem.Base.Int.{ℤ, pos, negsuc}

-- The ports: `port_data` is `DATA`, `port_dev` is `DEV`, and so on. `port_cmd` is also read, as
-- `STATUS`, and `port_ctl` is `DEVCTL`, read as `STATUSALT`.
abbrev pub port_data : ℕ
port_data = 0x1F0

abbrev pub port_count : ℕ
port_count = 0x1F2

abbrev pub port_lbal : ℕ
port_lbal = 0x1F3

abbrev pub port_lbam : ℕ
port_lbam = 0x1F4

abbrev pub port_lbah : ℕ
port_lbah = 0x1F5

abbrev pub port_dev : ℕ
port_dev = 0x1F6

abbrev pub port_cmd : ℕ
port_cmd = 0x1F7

abbrev pub port_ctl : ℕ
port_ctl = 0x3F6

abbrev pub cmd_read : ℕ
cmd_read = 0x20

abbrev pub cmd_write : ℕ
cmd_write = 0x30

-- The instructions on ports, over a state `D` of what is behind them.
pub record Bus (D : Type 0) : Type 0 where
  pub inb : ℕ → D → ℕ × D
  pub outb : ℕ → ℕ → D → D
  pub inl : D → ℕ × D
  pub outl : ℕ → D → D

abbrev pub Buffer : Type 0
Buffer = ℕ → ℕ

pub record Disks : Type 0 where
  pub havedisk0 : Bool
  pub havedisk1 : Bool

-- The four bytes that one `outsl` step sends.
abbrev pub dword : Buffer → ℕ → ℕ
dword b i = b (4 * i) + 256 * (b (4 * i + 1) + 256 * (b (4 * i + 2) + 256 * b (4 * i + 3)))

-- The four bytes that one `insl` step stores.
abbrev pub put_dword : Buffer → ℕ → ℕ → Buffer
put_dword b i v =
    let b1 = update b (4 * i) (v % 2 ^ 8) in
    let b2 = update b1 (4 * i + 1) (v / 2 ^ 8 % 2 ^ 8) in
    let b3 = update b2 (4 * i + 2) (v / 2 ^ 16 % 2 ^ 8) in
    update b3 (4 * i + 3) (v / 2 ^ 24 % 2 ^ 8)

-- The tests of a status `r`: `BSY` and `DRDY` for a command, `BSY` and `DRQ` for data, `ERR`, and
-- `DF` or `ERR`.
unfoldable pub is_ready : ℕ → Bool
is_ready r = (bit_and r 0xC0 == 0x40) || (r == 0)

unfoldable pub is_requesting : ℕ → Bool
is_requesting r = bit_and r 0x88 == 0x08

unfoldable pub is_error : ℕ → Bool
is_error r = bit_and r 0x01 == 0x01

unfoldable pub is_fault : ℕ → Bool
is_fault r = not (bit_and r 0x21 == 0)

-- The value of the device register, built as a byte.
unfoldable pub dev_bits : ℕ → ℕ → ℕ
dev_bits device high =
    let bits = 0x0F * 2 % 256 in
    let bits' = bit_or bits device in let bits'' = bits' * 2 ^ 4 % 256 in bit_or high bits''

module _ {D : Type 0} (bus : Bus D) where
  -- The loop of `idewait`: the status that ends it.
  unfoldable pub wait_ready : ℕ → D → Result (ℕ × D)
  wait_ready zero d = out_of_fuel
  wait_ready (suc fuel) d =
      let (r, d') = bus.inb port_ctl d in
      let again = wait_ready fuel d' in if is_ready r then ok (r, d') else again

  unfoldable pub idewait : ℕ → Bool → D → Result (ℤ × D)
  idewait fuel checkerr d = do
    (r, d') ← wait_ready fuel d
    ok (if checkerr && ((r == 0) || is_fault r) then negsuc 0 else pos 0, d')

  unfoldable pub ide_soft_reset : ℕ → D → Result D
  ide_soft_reset fuel d = do
    let d1 = bus.outb port_ctl 0x0 (bus.outb port_ctl 0x4 d)
    let d2 = (bus.inb port_ctl (bus.inb port_ctl d1).1).1
    let d3 = (bus.inb port_ctl (bus.inb port_ctl d2).1).1
    (_, d') ← idewait fuel false d3
    ok d'

  -- The loop of `ideinit` for one device: does a status that is not 0 come within the tries left?
  unfoldable pub probe : ℕ → D → Bool × D
  probe zero d = (false, d)
  probe (suc tries) d =
      let (r, d') = bus.inb port_cmd d in
      let rest = probe tries d' in if r == 0 then rest else (true, d')

  unfoldable pub ideinit : ℕ → Disks → D → Result (ℤ × Disks × D)
  ideinit fuel disks d = do
    d' ← ide_soft_reset fuel d
    let (found1, d1) = probe 1000 (bus.outb port_dev 0xF0 d')
    let (found0, d0) = probe 1000 (bus.outb port_dev 0xE0 d1)
    let have0 = disks.havedisk0 || found0
    let have1 = disks.havedisk1 || found1
    ok (
      if have0 || have1 then pos 0 else negsuc 0,
      record { havedisk0 = have0; havedisk1 = have1 },
      d0,
    )

  unfoldable pub idesetblock : ℕ → ℕ → ℕ → D → ℤ × D
  idesetblock sectors block device d =
      if leb (2 ^ 28) block
      then (negsuc 0, d)
      else if ltb 1 device
      then (negsuc 0, d)
      else (let d1 = bus.outb port_count sectors d in
          let d2 = bus.outb port_lbal (block % 2 ^ 8) d1 in
          let d3 = bus.outb port_lbam (block / 2 ^ 8 % 2 ^ 8) d2 in
          let d4 = bus.outb port_lbah (block / 2 ^ 16 % 2 ^ 8) d3 in
          (pos 0, bus.outb port_dev (dev_bits device (block / 2 ^ 24 % 2 ^ 4)) d4))

  -- The loop on `DRQ`, with the count of the readings so far.
  unfoldable pub wait_data : ℕ → ℕ → D → Result (ℤ × D)
  wait_data zero times d = out_of_fuel
  wait_data (suc fuel) times d =
      let (r, d') = bus.inb port_ctl d in
      let again = wait_data fuel ((times + 1) % 2 ^ 32) d' in
      if is_requesting r
      then ok (pos 0, d')
      else (if ltb 4 times && is_error r then ok (negsuc 0, d') else again)

  -- `insl` and `outsl`: `n` double words, from the one at index `i` of the buffer on.
  unfoldable pub outsl : ℕ → ℕ → Buffer → D → D
  outsl zero i b d = d
  outsl (suc n) i b d = outsl n (i + 1) b (bus.outl (dword b i) d)

  unfoldable pub insl : ℕ → ℕ → Buffer → D → Buffer × D
  insl zero i b d = (b, d)
  insl (suc n) i b d = let (v, d') = bus.inl d in insl n (i + 1) (put_dword b i v) d'

  -- What `idewrite` and `ideread` do before the data: the code ignores what `idesetblock` returns.
  unfoldable pub start_command : ℕ → ℕ → ℕ → D → Result (ℤ × D)
  start_command command fuel bloc d = do
    (_, d1) ← idewait fuel false d
    let (_, d2) = idesetblock 1 bloc 0 d1
    wait_data fuel 0 (bus.outb port_cmd command (bus.outb port_ctl 0x2 d2))

  unfoldable pub idewrite : ℕ → Option Buffer → ℕ → D → Result (ℤ × D)
  idewrite fuel none bloc d = ok (negsuc 0, d)
  idewrite fuel (some b) bloc d = do
    (r, d1) ← start_command cmd_write fuel bloc d
    elim r [
      | negsuc _ ↦ ok (negsuc 0, d1)
      | pos _ ↦ do (_, d') ← idewait fuel false (outsl 128 0 b d1); ok (pos 0, d')
    ]

  -- The buffer as it is afterwards, too.
  unfoldable pub ideread : ℕ → Option Buffer → ℕ → D → Result (ℤ × Option Buffer × D)
  ideread fuel none bloc d = ok (negsuc 0, none, d)
  ideread fuel (some b) bloc d = do
    (r, d1) ← start_command cmd_read fuel bloc d
    elim r [
      | negsuc _ ↦ ok (negsuc 0, some b, d1)
      | pos _ ↦ do
        let (b', d2) = insl 128 0 b d1
        (_, d') ← idewait fuel false d2
        ok (pos 0, some b', d')
    ]

-- `tobinary`: the digits of a byte, most significant first, in a buffer that is closed by 0.
unfoldable pub tobinary_loop : ℕ → ℕ → Buffer → Buffer
tobinary_loop zero b tmp = tmp
tobinary_loop (suc i) b tmp =
    tobinary_loop i (b / 2) (update tmp i (if bit_and b 1 == 0 then b'0' else b'1'))

unfoldable pub tobinary : ℕ → Buffer → Buffer
unfolding tobinary_loop
tobinary b tmp = tobinary_loop 8 b (update tmp 8 0)
