-- ===== src/Utils/Access.antt =====
-- What `access_ok` of zeos_full/utils.c lets through.
use ze_os_filesystem.Base.{ℕ, ◌+◌, ◌*◌, ◌^◌, ◌≤◌, ◌<◌, ◌≡◌, ◌↔◌, true, arith}
use ze_os_filesystem.Utils.{verify_read, verify_write, access_ok}

-- For an address of 32 bits and a size that a positive `int` can have, `access_ok` lets a read or
-- a write through exactly if the range begins in page 256 or behind it and ends in page 284 or
-- before it: so also where it reaches into page 284, which is the one behind the data.
pub access_ok_iff :
    (type addr size : ℕ)
    → addr < 2 ^ 32
    → size < 2 ^ 31
    → (access_ok type addr size ≡ true) ↔ ((256 * 2 ^ 12 ≤ addr) × (addr + size < 285 * 2 ^ 12))
unfolding access_ok
access_ok_iff type addr size p q = ground arith

-- A write is let through exactly where a read is, so also into the pages of the code.
pub access_ok-write :
    (addr size : ℕ) → access_ok verify_write addr size ≡ access_ok verify_read addr size
unfolding access_ok
access_ok-write addr size = ground arith
