-- ===== src/Ide/Registers.antt =====
-- `idesetblock` of disk-driver/ide.c: the block that the registers name afterwards.
use ze_os_filesystem.Base.{
  ◌⊎◌, tested_below, tested_below_at, ℕ, zero, suc, ◌/◌, ◌%◌, ◌^◌, ◌≤◌, ◌<◌, ◌≡◌, refl, Bool, true,
  false, ◌&&◌, ◌==◌, leb, ltb, le→ltb, update, ap, sym, ◌∙◌, arith,
}
use ze_os_filesystem.Base.Int.{pos, negsuc}
use ze_os_filesystem.Ide.{
  Bus, port_count, port_lbal, port_lbam, port_lbah, port_dev, dev_bits, idesetblock,
}
use ze_os_filesystem.Ide.Drive.{View, Drive, IsAccepting, accepts, is_register, address}

-- The three parts of the device register.
abbrev parts : ℕ → ℕ → Bool
parts device high =
    let v = dev_bits device high in (v % 16 == high) && (v / 64 % 2 == 1) && (v / 16 % 2 == device)

dev_bits-parts : (device high : ℕ) → device ≤ 1 → high < 16 → parts device high ≡ true
unfolding tested_below dev_bits
dev_bits-parts zero high d h = tested_below_at 16 (parts 0) high refl h
dev_bits-parts (suc zero) high d h = tested_below_at 16 (parts 1) high refl h
dev_bits-parts (suc (suc n)) high d h = absurd (omega arith)

dev_bits_lem :
    (device high : ℕ)
    → device ≤ 1
    → high < 16
    → (dev_bits device high % 16 ≡ high)
      × (dev_bits device high / 64 % 2 ≡ 1)
      × (dev_bits device high / 16 % 2 ≡ device)
dev_bits_lem device high d h = ground (arith, dev_bits-parts device high d h)

-- The registers after the five writes.
abbrev pub registers : (ℕ → ℕ) → ℕ → ℕ → ℕ → ℕ → ℕ
registers regs sectors block device =
    let r1 = update regs port_count sectors in
    let r2 = update r1 port_lbal (block % 2 ^ 8) in
    let r3 = update r2 port_lbam (block / 2 ^ 8 % 2 ^ 8) in
    let r4 = update r3 port_lbah (block / 2 ^ 16 % 2 ^ 8) in
    update r4 port_dev (dev_bits device (block / 2 ^ 24 % 2 ^ 4))

pub registers_lem :
    (regs : ℕ → ℕ) (sectors block device : ℕ)
    → block < 2 ^ 28
    → device ≤ 1
    → (registers regs sectors block device port_count ≡ sectors)
      × (registers regs sectors block device port_dev / 64 % 2 ≡ 1)
      × (registers regs sectors block device port_dev / 16 % 2 ≡ device)
      × (address (registers regs sectors block device) ≡ block)
registers_lem regs sectors block device small one =
    let (low, lba, dev) = dev_bits_lem device (block / 2 ^ 24 % 2 ^ 4) one (omega arith) in
    (refl, lba, dev, rw low (omega arith))

-- The view after the five writes.
abbrev pub chosen : View → ℕ → ℕ → ℕ → View
chosen v sectors block device = record v { regs = registers v.regs sectors block device }

module _ {D : Type 0} (bus : Bus D) (drive : Drive bus) where
  open drive use {view, set_register}

  set_lem :
      (d : D) (v0 : View) (p v : ℕ)
      → is_register p ≡ true
      → view d ≡ v0
      → v0.pending ≡ 0
      → IsAccepting v0
      → view (bus.outb p v d) ≡ record v0 { regs = update v0.regs p v }
  set_lem d v0 p v h e free can =
      set_register d p v h (ap View.pending e ∙ free) (ap (λ w. accepts (View.phase w)) e ∙ can)
      ∙ ap {A = View} {B = View} (λ w. record w { regs = update w.regs p v }) e

  pub idesetblock-registers :
      (sectors block device : ℕ) (d : D)
      → (view d).pending ≡ 0
      → IsAccepting (view d)
      → block < 2 ^ 28
      → device ≤ 1
      → (d' : D) × (idesetblock bus sectors block device d ≡ (pos 0, d'))
        × (view d' ≡ chosen (view d) sectors block device)
  unfolding idesetblock
  idesetblock-registers sectors block device d free can small one =
      let d1 = bus.outb port_count sectors d in
      let d2 = bus.outb port_lbal (block % 2 ^ 8) d1 in
      let d3 = bus.outb port_lbam (block / 2 ^ 8 % 2 ^ 8) d2 in
      let d4 = bus.outb port_lbah (block / 2 ^ 16 % 2 ^ 8) d3 in
      let high = dev_bits device (block / 2 ^ 24 % 2 ^ 4) in
      let e1 = set_lem d (view d) port_count sectors refl refl free can in
      let e2 = set_lem d1 _ port_lbal (block % 2 ^ 8) refl e1 free can in
      let e3 = set_lem d2 _ port_lbam (block / 2 ^ 8 % 2 ^ 8) refl e2 free can in
      let e4 = set_lem d3 _ port_lbah (block / 2 ^ 16 % 2 ^ 8) refl e3 free can in
      let e5 = set_lem d4 _ port_dev high refl e4 free can in
      (
        bus.outb port_dev high d4,
        (let below : leb (2 ^ 28) block ≡ false = ground arith in
            let known : ltb 1 device ≡ false = le→ltb 1 device one in rw (below, known) refl),
        e5,
      )

  idesetblock-small :
      (sectors block device : ℕ) (d : D)
      → (view d).pending ≡ 0
      → IsAccepting (view d)
      → block < 2 ^ 28
      → device ≤ 1
      → (d' : D) × (idesetblock bus sectors block device d ≡ (pos 0, d'))
        × (view d' ≡ record (view d) { regs = (view d').regs })
        × ((view d').regs port_count ≡ sectors)
        × (address (view d').regs ≡ block)
        × ((view d').regs port_dev / 64 % 2 ≡ 1)
        × ((view d').regs port_dev / 16 % 2 ≡ device)
  unfolding idesetblock
  idesetblock-small sectors block device d free can small one =
      let (d', done, e) = idesetblock-registers sectors block device d free can small one in
      let (count, lba, dev, named) = registers_lem (view d).regs sectors block device small one in
      let r = ap View.regs e in
      (
        d',
        done,
        e ∙ ap {A = ℕ → ℕ} {B = View} (λ f. record (view d) { regs = f }) (sym r),
        ap (λ f. f port_count) r ∙ count,
        ap address r ∙ named,
        ap (λ f. f port_dev / 64 % 2) r ∙ lba,
        ap (λ f. f port_dev / 16 % 2) r ∙ dev,
      )

  idesetblock-refused :
      (sectors block device : ℕ) (d : D)
      → (2 ^ 28 ≤ block) ⊎ (1 < device)
      → idesetblock bus sectors block device d ≡ (negsuc 0, d)
  unfolding idesetblock
  idesetblock-refused sectors block device d outside = ground arith

  -- On a device that can take a command: for a block below 2 ^ 28 and device 0 or 1, `idesetblock`
  -- returns 0, and the five registers then hold the count, the address of the block, the LBA bit and
  -- the device. Nothing else that can be told of the device changes. For any other block or device it
  -- returns -1 and writes no register.
  pub idesetblock-address :
      (sectors block device : ℕ) (d : D)
      → (view d).pending ≡ 0
      → IsAccepting (view d)
      → (block < 2 ^ 28
          → device ≤ 1
          → (d' : D) × (idesetblock bus sectors block device d ≡ (pos 0, d'))
            × (view d' ≡ record (view d) { regs = (view d').regs })
            × ((view d').regs port_count ≡ sectors)
            × (address (view d').regs ≡ block)
            × ((view d').regs port_dev / 64 % 2 ≡ 1)
            × ((view d').regs port_dev / 16 % 2 ≡ device))
        × ((2 ^ 28 ≤ block) ⊎ (1 < device) → idesetblock bus sectors block device d ≡ (negsuc 0, d))
  idesetblock-address sectors block device d free can = (
    idesetblock-small sectors block device d free can,
    idesetblock-refused sectors block device d,
  )
