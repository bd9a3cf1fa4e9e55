-- ===== src/Sys/Files/Seek.antt =====
-- `sys_lseek` of zeos_full/sys.c.
use ze_os_filesystem.Base.{
  ℕ, ◌+◌, ◌^◌, ◌<◌, ◌≡◌, refl, ◌==◌, update, ok, ◌>>=◌, lt→ltb, ==_self, ◌∙◌, ap, fun_ext,
  Bool-cases, inl, inr,
}
use ze_os_filesystem.Base.Int.{pos, add_int-pos}
use ze_os_filesystem.Sys.{OpenFile, Kernel, open_file_table_size}
use ze_os_filesystem.Sys.Files.{sys_lseek}
use ze_os_filesystem.Sys.Files.Calls.{minus_two-pos}

-- Channel `k` is open and leads to entry `o` of the open file table.
pub record Seekable (s : Kernel) (k o : ℕ) : Type 0 where
  pub number : k + 2 < 2 ^ 31
  pub own : (s.channels k).fd ≡ pos (k + 2)
  pub leads : (s.channels k).oft_entry_num ≡ pos o
  pub within : o < open_file_table_size

-- The state with entry `o` at byte `offset`.
abbrev pub sought : ℕ → ℕ → Kernel → Kernel
sought o offset s = record s {
  open_files = update s.open_files o (record (s.open_files o) { access_offset = pos offset });
}

-- An open channel is put at byte `offset`, which is the result.
pub sys_lseek-set :
    (s : Kernel) (k o offset : ℕ)
    → Seekable s k o
    → sys_lseek (pos (k + 2)) (pos offset) (pos 0) s ≡ ok (pos offset, sought o offset s)
unfolding sys_lseek
sys_lseek-set s k o offset h =
    rw
      (
        minus_two-pos k h.number,
        ◌>>=◌,
        h.own,
        h.leads,
        ==_self (k + 2),
        lt→ltb o 100 h.within,
        sys_lseek,
      )
      refl

sys_lseek-cur :
    (s : Kernel) (k o offset d : ℕ)
    → Seekable s k o
    → (s.open_files o).access_offset ≡ pos offset
    → offset + d < 2 ^ 31
    → sys_lseek (pos (k + 2)) (pos d) (pos 1) s ≡ ok (pos (offset + d), sought o (offset + d) s)
unfolding sys_lseek
sys_lseek-cur s k o offset d h at fits =
    rw
      (
        minus_two-pos k h.number,
        ◌>>=◌,
        h.own,
        h.leads,
        ==_self (k + 2),
        at,
        add_int-pos offset d fits,
        lt→ltb o 100 h.within,
        sys_lseek,
      )
      refl

update_twice :
    (f : ℕ → OpenFile) (i : ℕ) (a b : OpenFile) → update (update f i a) i b ≡ update f i b
update_twice f i a b =
    fun_ext λ k. elim (Bool-cases (k == i)) [ inl same ↦ rw same refl | inr other ↦ rw other refl ]

-- For an open channel, `SEEK_SET` to a byte and then `SEEK_CUR` by a distance are `SEEK_SET` to the
-- sum, which is the result, given that the sum is an `int`; nothing but the entry's offset changes.
pub sys_lseek-sys_lseek :
    (s : Kernel) (k o offset d : ℕ)
    → Seekable s k o
    → offset + d < 2 ^ 31
    → ((sys_lseek (pos (k + 2)) (pos offset) (pos 0) s >>= λ r.
          sys_lseek (pos (k + 2)) (pos d) (pos 1) r.1)
        ≡ sys_lseek (pos (k + 2)) (pos (offset + d)) (pos 0) s)
      × (sys_lseek (pos (k + 2)) (pos (offset + d)) (pos 0) s
          ≡ ok (pos (offset + d), sought o (offset + d) s))
sys_lseek-sys_lseek s k o offset d h fits =
    let s1 = sought o offset s in
    let h1 : Seekable s1 k o = record {
      number = h.number;
      own = h.own;
      leads = h.leads;
      within = h.within;
    } in
    let at : (s1.open_files o).access_offset ≡ pos offset = rw (==_self o) refl in
    let last = sys_lseek-set s k o (offset + d) h in
    (
      rw (sys_lseek-set s k o offset h, ◌>>=◌, last)
          (sys_lseek-cur s1 k o offset d h1 at fits
            ∙ rw (==_self o) (
                ap (λ (f : ℕ → OpenFile). ok (pos (offset + d), record s { open_files = f }))
                  (update_twice s.open_files o
                    (record (s.open_files o) { access_offset = pos offset })
                    (record (s.open_files o) { access_offset = pos (offset + d) })))),
      last,
    )
