-- ===== src/Ide/Drive.antt =====
-- What disk-driver/ide.c relies on of the device: the protocol of the ATA standard that its comments
-- describe, for device 0, transfers of one sector and no interrupts.
use Prim.Native.Nat.{bit_and}
use ze_os_filesystem.Base.{
  ℕ, ◌+◌, ◌*◌, ◌/◌, ◌%◌, ◌^◌, ◌≤◌, ◌<◌, ◌≡◌, Bool, true, false, ◌||◌, suc, ◌==◌, update,
}
use ze_os_filesystem.Ide.{
  Bus, port_count, port_lbal, port_lbam, port_lbah, port_dev, port_cmd, port_ctl, cmd_read,
  cmd_write,
}

-- `reading k i` and `writing k i`: double word `i` of block `k` is the next to be transferred.
pub data Phase : Type 0 where
  idle failed : Phase
  reading writing : ℕ → ℕ → Phase

-- What can be told of a device: for how many readings of the status it stays busy, what it does
-- then, its registers, and the double words of its blocks.
pub record View : Type 0 where
  pub pending : ℕ
  pub phase : Phase
  pub regs : ℕ → ℕ
  pub contents : ℕ → ℕ → ℕ

-- The block that the registers name.
abbrev pub address : (ℕ → ℕ) → ℕ
address regs =
    regs port_lbal
    + 2 ^ 8 * regs port_lbam
    + 2 ^ 16 * regs port_lbah
    + 2 ^ 24 * (regs port_dev % 16)

-- One sector, by its address (bit 6), of device 0 (bit 4).
abbrev pub Selects : (ℕ → ℕ) → Type 0
Selects regs = (regs port_count ≡ 1) × (regs port_dev / 64 % 2 ≡ 1) × (regs port_dev / 16 % 2 ≡ 0)

abbrev pub is_register : ℕ → Bool
is_register p =
    (p == port_count) || (p == port_lbal) || (p == port_lbam) || (p == port_lbah) || (p == port_dev)

abbrev pub accepts : Phase → Bool
accepts idle = true
accepts failed = true
accepts (reading k i) = false
accepts (writing k i) = false

-- `BSY`, `DRDY`, `DRQ` and `ERR` of a device that is not busy.
abbrev pub status_bits : Phase → ℕ
status_bits idle = 0x40
status_bits failed = 0x41
status_bits (reading k i) = 0x48
status_bits (writing k i) = 0x48

-- A device that can take a command, once it is no longer busy.
abbrev pub IsAccepting : View → Type 0
IsAccepting v = accepts v.phase ≡ true

pub record Drive {D : Type 0} (bus : Bus D) : Type 0 where
  pub view : D → View
  pub latency : ℕ
  pub capacity : ℕ
  pub status_byte : (d : D) → (bus.inb port_ctl d).0 < 256
  pub status_busy :
      (d : D) (n : ℕ)
      → (view d).pending ≡ suc n
      → (bit_and (bus.inb port_ctl d).0 0x81 ≡ 0x80)
        × (view (bus.inb port_ctl d).1 ≡ record (view d) { pending = n })
  pub status_free :
      (d : D)
      → (view d).pending ≡ 0
      → (bit_and (bus.inb port_ctl d).0 0xC9 ≡ status_bits (view d).phase)
        × (view (bus.inb port_ctl d).1 ≡ view d)
  pub set_register :
      (d : D) (p v : ℕ)
      → is_register p ≡ true
      → (view d).pending ≡ 0
      → IsAccepting (view d)
      → view (bus.outb p v d) ≡ record (view d) { regs = update (view d).regs p v }
  pub set_control : (d : D) → view (bus.outb port_ctl 0x2 d) ≡ view d
  pub start_read :
      (d : D)
      → (view d).pending ≡ 0
      → IsAccepting (view d)
      → Selects (view d).regs
      → address (view d).regs < capacity
      → (n : ℕ) × (n ≤ latency)
        × (view (bus.outb port_cmd cmd_read d)
            ≡ record (view d) { pending = n; phase = reading (address (view d).regs) 0 })
  pub start_write :
      (d : D)
      → (view d).pending ≡ 0
      → IsAccepting (view d)
      → Selects (view d).regs
      → address (view d).regs < capacity
      → (n : ℕ) × (n ≤ latency)
        × (view (bus.outb port_cmd cmd_write d)
            ≡ record (view d) { pending = n; phase = writing (address (view d).regs) 0 })
  pub refuse :
      (d : D) (command : ℕ)
      → (command == cmd_read) || (command == cmd_write) ≡ true
      → (view d).pending ≡ 0
      → IsAccepting (view d)
      → Selects (view d).regs
      → capacity ≤ address (view d).regs
      → (n : ℕ) × (n ≤ latency)
        × (view (bus.outb port_cmd command d) ≡ record (view d) { pending = n; phase = failed })
  pub read_word :
      (d : D) (k i : ℕ)
      → (view d).pending ≡ 0
      → (view d).phase ≡ reading k i
      → i + 1 < 128
      → ((bus.inl d).0 ≡ (view d).contents k i)
        × (view (bus.inl d).1 ≡ record (view d) { phase = reading k (i + 1) })
  pub read_last :
      (d : D) (k i : ℕ)
      → (view d).pending ≡ 0
      → (view d).phase ≡ reading k i
      → i + 1 ≡ 128
      → ((bus.inl d).0 ≡ (view d).contents k i)
        × ((n : ℕ) × (n ≤ latency)
            × (view (bus.inl d).1 ≡ record (view d) { pending = n; phase = idle }))
  pub write_word :
      (d : D) (k i v : ℕ)
      → (view d).pending ≡ 0
      → (view d).phase ≡ writing k i
      → i + 1 < 128
      → view (bus.outl v d) ≡ record (view d) {
        phase = writing k (i + 1);
        contents = update (view d).contents k (update ((view d).contents k) i v);
      }
  pub write_last :
      (d : D) (k i v : ℕ)
      → (view d).pending ≡ 0
      → (view d).phase ≡ writing k i
      → i + 1 ≡ 128
      → (n : ℕ) × (n ≤ latency)
        × (view (bus.outl v d) ≡ record (view d) {
          pending = n;
          phase = idle;
          contents = update (view d).contents k (update ((view d).contents k) i v);
        })
