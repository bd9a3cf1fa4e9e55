-- ===== src/Ide/Refine.antt =====
-- disk-driver/ide.c keeps the contract of disk-driver/ide.h on which file-system/fat32.c rests.
use ze_os_filesystem.Base.{
  ℕ, ◌/◌, ◌%◌, ◌^◌, ◌<◌, ◌≡◌, ◌==◌, ==_iff, if_true, if_false, Bool-cases, inl, inr, some, ok, ap,
  sym, ◌∙◌, arith,
}
use ze_os_filesystem.Base.Int.{pos}
use ze_os_filesystem.Fat.{FileSystem, ide_read, ide_write}
use ze_os_filesystem.Ide.{Bus, Buffer, idewrite, ideread}
use ze_os_filesystem.Ide.Drive.{Drive}
use ze_os_filesystem.Ide.Words.{byte, byte-dword}
use ze_os_filesystem.Ide.Transfer.{IsReady, idewrite-contents, ideread-contents}

module _ {D : Type 0} (bus : Bus D) (drive : Drive bus) where
  open drive use {view, capacity}

  -- The blocks of the device are those of the file system's disk.
  abbrev pub Represents : D → FileSystem → Type 0
  Represents d fs =
      (k j : ℕ) → k < capacity → j < 512 → byte ((view d).contents k (j / 4)) (j % 4) ≡ fs.disk k j

  -- On a device that takes the next command within the fuel and holds the disk of a file system, for a
  -- block below 2 ^ 28 that the device has: `ideread` returns 0 and leaves the 512 bytes of the
  -- file system's `ide_read`, and the device still holds the disk. For a buffer of bytes, `idewrite`
  -- returns 0, and the device then holds the disk of the file system's `ide_write`.
  pub ide-refines :
      (fuel bloc : ℕ) (b : Buffer) (d : D) (fs : FileSystem)
      → ((i : ℕ) → b i < 2 ^ 8)
      → IsReady bus drive fuel d
      → Represents d fs
      → bloc < 2 ^ 28
      → bloc < capacity
      → ((b' : Buffer) × (d' : D) × (ideread bus fuel (some b) bloc d ≡ ok (pos 0, some b', d'))
          × ((j : ℕ) → j < 512 → b' j ≡ ide_read bloc fs j)
          × Represents d' fs
          × IsReady bus drive fuel d')
        × ((d' : D) × (idewrite bus fuel (some b) bloc d ≡ ok (pos 0, d'))
            × Represents d' (ide_write b bloc fs)
            × IsReady bus drive fuel d')
  ide-refines fuel bloc b d fs bytes ready holds small inside =
      let (b', d1, done1, got, _, same, ready1) =
        ideread-contents bus drive fuel bloc b d ready small inside in
      let (d2, done2, here, others, ready2) =
        idewrite-contents bus drive fuel bloc b d ready small inside in
      (
        (
          b',
          d1,
          done1,
          (λ j lt. got j lt ∙ holds bloc j inside lt),
          (λ k j in' lt. ap (λ f. byte (f k (j / 4)) (j % 4)) same ∙ holds k j in' lt),
          ready1,
        ),
        (
          d2,
          done2,
          (λ k j in' lt. elim (Bool-cases (k == bloc)) [
            | inl this ↦
                let e : k ≡ bloc = (==_iff k bloc).0 this in
                ap (λ n. byte ((view d2).contents n (j / 4)) (j % 4)) e
                ∙ ap (λ v. byte v (j % 4)) (here (j / 4) (omega arith))
                ∙ byte-dword b bytes j
                ∙ sym (ap (λ f. f j) (if_true b (fs.disk k) this))
            | inr other ↦
                ap (λ f. byte (f (j / 4)) (j % 4)) (others k (ground arith))
                ∙ holds k j in' lt
                ∙ sym (ap (λ f. f j) (if_false b (fs.disk k) other))
          ]),
          ready2,
        ),
      )
