-- ===== src/Mm.antt =====
-- zeos_full/mm.c: the byte map of physical frames and the page tables of processes, with the sizes
-- of zeos_full/include/mm_address.h.
pub mod Frames
pub mod Pages
use ze_os_filesystem.Base.{
  ℕ, zero, suc, ◌+◌, ◌-◌, ◌%◌, ◌^◌, Bool, true, false, ◌&&◌, ltb, ◌==◌, if◌then◌else◌, Option, none,
  some, update,
}
use ze_os_filesystem.Base.Int.{ℤ, pos, negsuc}
use ze_os_filesystem.Utils.{user_first_page, num_pag_code, num_pag_data}

abbrev pub total_pages : ℕ
total_pages = 1024

abbrev pub num_pag_kernel : ℕ
num_pag_kernel = 256

abbrev pub free_byte : ℕ
free_byte = 0

abbrev pub used_byte : ℕ
used_byte = 1

-- `phys_mem`
abbrev pub PhysMem : Type 0
PhysMem = ℕ → ℕ

-- `n` rounds of a loop that marks the frames from `i` on.
unfoldable pub mark_frames : ℕ → ℕ → ℕ → PhysMem → PhysMem
mark_frames zero i v m = m
mark_frames (suc n) i v m = mark_frames n (i + 1) v (update m i v)

unfoldable pub init_frames : PhysMem → PhysMem
init_frames m = mark_frames num_pag_kernel 0 used_byte (mark_frames total_pages 0 free_byte m)

-- `n` rounds of the loop, with its step of two.
unfoldable pub find_frame : PhysMem → ℕ → ℕ → Option ℕ
find_frame m zero i = none
find_frame m (suc n) i =
    let rest = find_frame m n (i + 2) in if m i == free_byte then some i else rest

-- From 256 to 1024 in steps of two the loop has 384 rounds; `none` is the result -1.
unfoldable pub alloc_frame : PhysMem → Option ℕ × PhysMem
alloc_frame m = elim (find_frame m 384 num_pag_kernel) [
  | none ↦ (none, m)
  | some i ↦ (some i, update m i used_byte)
]

unfoldable pub free_frame : ℕ → PhysMem → PhysMem
free_frame frame m =
    if ltb num_pag_kernel frame && ltb frame total_pages then update m frame free_byte else m

-- A page table entry (zeos_full/include/types.h); `flags` are the bits that the code never sets.
pub record PageTableEntry : Type 0 where
  pub present : ℕ
  pub rw_bit : ℕ
  pub user : ℕ
  pub flags : ℕ
  pub pbase_addr : ℕ

abbrev pub PageTable : Type 0
PageTable = ℕ → PageTableEntry

-- `entry = 0`
abbrev pub no_entry : PageTableEntry
no_entry = record { present = 0; rw_bit = 0; user = 0; flags = 0; pbase_addr = 0 }

unfoldable pub set_ss_pag : PageTable → ℕ → ℕ → PageTable
set_ss_pag table page frame =
    update table page
      (record no_entry { pbase_addr = frame % 2 ^ 20; user = 1; rw_bit = 1; present = 1 })

unfoldable pub del_ss_pag : PageTable → ℕ → PageTable
del_ss_pag table page = update table page no_entry

unfoldable pub get_frame : PageTable → ℕ → ℕ
get_frame table page = (table page).pbase_addr

-- `n` rounds of the loops of `init_table_pages` for one table.
unfoldable pub clear_entries : ℕ → ℕ → PageTable → PageTable
clear_entries zero i table = table
clear_entries (suc n) i table = clear_entries n (i + 1) (update table i no_entry)

unfoldable pub map_kernel : ℕ → ℕ → PageTable → PageTable
map_kernel zero i table = table
map_kernel (suc n) i table =
    map_kernel n (i + 1)
      (update table i (record (table i) { pbase_addr = i % 2 ^ 20; rw_bit = 1; present = 1 }))

unfoldable pub init_table_pages : PageTable → PageTable
init_table_pages table = map_kernel 255 1 (clear_entries total_pages 0 table)

-- The frame number as it is stored: -1, where no frame is free, becomes 0xFFFFF.
abbrev pub stored_frame : Option ℕ → ℕ
stored_frame none = 2 ^ 20 - 1
stored_frame (some frame) = frame % 2 ^ 20

abbrev pub first_data_page : ℕ
first_data_page = user_first_page + num_pag_code

-- `n` rounds of the loop over the pages of the code, and of the one over those of the data.
unfoldable pub map_code : ℕ → ℕ → PageTable × PhysMem → PageTable × PhysMem
map_code zero page s = s
map_code (suc n) page (table, m) =
    let (frame, m) = alloc_frame m in
    let entry = record no_entry { pbase_addr = stored_frame frame; user = 1; present = 1 } in
    map_code n (page + 1) (update table page entry, m)

unfoldable pub map_data : ℕ → ℕ → PageTable × PhysMem → PageTable × PhysMem
map_data zero page s = s
map_data (suc n) page (table, m) =
    let (frame, m) = alloc_frame m in
    let entry = record no_entry {
      pbase_addr = stored_frame frame;
      user = 1;
      rw_bit = 1;
      present = 1;
    } in
    map_data n (page + 1) (update table page entry, m)

unfoldable pub set_user_pages : PageTable → PhysMem → PageTable × PhysMem
set_user_pages table m =
    map_data num_pag_data first_data_page (map_code num_pag_code user_first_page (table, m))

-- `n` rounds of the loop from page `page` on.
unfoldable pub unmap_data : ℕ → ℕ → PageTable → PhysMem → PageTable × PhysMem
unmap_data zero page table m = (table, m)
unmap_data (suc n) page table m =
    unmap_data n (page + 1) (update table page no_entry) (free_frame ((table page).pbase_addr) m)

unfoldable pub free_user_pages : PageTable → PhysMem → PageTable × PhysMem
free_user_pages table m = unmap_data num_pag_data first_data_page table m
