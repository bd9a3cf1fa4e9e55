-- ===== src/Sys/Files/Calls.antt =====
-- What the system calls on files do to the tables.
use ze_os_filesystem.Base.{
  ℕ, zero, suc, ◌+◌, ◌-◌, ◌^◌, ◌≤◌, ◌<◌, ◌≡◌, ◌≢◌, refl, true, false, ltb, ◌==◌, if◌then◌else◌,
  some, arith, update, ok, fault, ◌>>=◌, Bool-cases, inl, inr, lt→ltb, ==_ne, ◌∙◌, ap,
}
use ze_os_filesystem.Base.Int.{add_int-pos, add_int-negsuc, ℤ, pos, neg, eq_ℤ}
use ze_os_filesystem.Sys.{
  ChannelEntry, OpenFile, Kernel, open_file_table_size, channel_table_size, ebadf, minus_two,
}
use ze_os_filesystem.Sys.Files.{free_channel, free_open_file, open_channel, sys_close}

-- Entry `i` is the first unused one of the open file table.
pub record FirstUnused (files : ℕ → OpenFile) (i : ℕ) : Type 0 where
  pub within : i < open_file_table_size
  pub unused : (files i).start_cluster ≡ 0
  pub first : (k : ℕ) → k < i → (files k).start_cluster ≢ 0

free_open_file-FirstUnused :
    (files : ℕ → OpenFile) (i n k : ℕ)
    → FirstUnused files i
    → k ≤ i
    → i < k + n
    → free_open_file files n k ≡ some i
unfolding free_open_file
free_open_file-FirstUnused files i zero k u p q = absurd (omega arith)
free_open_file-FirstUnused files i (suc n) k u p q = elim (Bool-cases (k == i)) [
  | inl same ↦ let here : k ≡ i = ground arith in rw (here, u.unused) refl
  | inr other ↦
      let before : k < i = ground arith in
      rw (==_ne ((files k).start_cluster) 0 (u.first k before))
        (free_open_file-FirstUnused files i n (k + 1) u (omega arith) (omega arith))
]

not_same :
    (channels : ℕ → ChannelEntry) (k c : ℕ)
    → eq_ℤ ((channels k).fd) (pos (k + 2)) ≡ true
    → eq_ℤ ((channels c).fd) (pos (c + 2)) ≡ false
    → k ≢ c
not_same channels k c taken free e =
    let same = ap (λ (x : ℕ). eq_ℤ ((channels x).fd) (pos (x + 2))) e in cc

free_channel-found :
    (channels : ℕ → ChannelEntry) (n k c : ℕ)
    → k ≤ c
    → c < k + n
    → eq_ℤ ((channels c).fd) (pos (c + 2)) ≡ false
    → (d : ℕ) × (free_channel channels n k ≡ some d)
unfolding free_channel
free_channel-found channels zero k c p q h = absurd (omega arith)
free_channel-found channels (suc n) k c p q h =
    elim (Bool-cases (eq_ℤ ((channels k).fd) (pos (k + 2)))) [
      | inl taken ↦
          let later : k ≢ c = not_same channels k c taken h in
          let (d, e) = free_channel-found channels n (k + 1) c (omega arith) (omega arith) h in
          (d, rw taken e)
      | inr free ↦ (k, rw free refl)
    ]

-- The state after a file is opened at place `i` of both tables.
abbrev pub opened : ℕ → ℕ → ℤ → Kernel → Kernel
opened i cluster mode s = record s {
  channels = update s.channels i (record { fd = pos (i + 2); oft_entry_num = pos i });
  open_files = update s.open_files i (record {
    start_cluster = cluster;
    open_count = pos 1;
    access_offset = pos 0;
    permissions = mode;
  });
}

-- Given a free channel and the first unused entry `i` of the open file table: the file is opened in
-- channel `i`, whichever channel is free, and the result is `i + 2`; for `i` from 10 on the code
-- writes outside the channel table.
pub open_channel-FirstUnused :
    (cluster : ℕ) (mode : ℤ) (s : Kernel) (c i : ℕ)
    → c < channel_table_size
    → eq_ℤ ((s.channels c).fd) (pos (c + 2)) ≡ false
    → FirstUnused s.open_files i
    → open_channel cluster mode s
      ≡ (if ltb i channel_table_size then ok (pos (i + 2), opened i cluster mode s) else fault)
unfolding open_channel
open_channel-FirstUnused cluster mode s c i p free u =
    let (d, e) =
      free_channel-found s.channels channel_table_size 0 c (omega arith) (omega arith) free in
    let f =
      free_open_file-FirstUnused s.open_files i open_file_table_size 0 u (omega arith)
        (omega (arith, u.within)) in
    elim (Bool-cases (ltb i channel_table_size)) [
      | inl inside ↦
          rw (e, f, open_channel, inside, lt→ltb i open_file_table_size u.within, ◌>>=◌) refl
      | inr outside ↦ rw (e, f, open_channel, outside, ◌>>=◌) refl
    ]

-- Given a free channel, a first unused entry `i` below 10 of the open file table, and no open
-- file `i + 4` in channel `i + 2`: the file descriptor `i + 2` that opening a file returns cannot be
-- closed, as the result of `sys_close` for it is `-EBADF`.
pub sys_close-open_channel :
    (cluster : ℕ) (mode : ℤ) (s : Kernel) (c i : ℕ)
    → c < channel_table_size
    → eq_ℤ ((s.channels c).fd) (pos (c + 2)) ≡ false
    → FirstUnused s.open_files i
    → i < channel_table_size
    → eq_ℤ ((s.channels (i + 2)).fd) (pos (i + 4)) ≡ false
    → (open_channel cluster mode s >>= λ r. sys_close r.0 r.1)
      ≡ ok (neg ebadf, opened i cluster mode s)
unfolding sys_close
sys_close-open_channel cluster mode s c i p free u small shut =
    let sum : i + 2 + 2 ≡ i + 4 = omega arith in
    rw
      (
        open_channel-FirstUnused cluster mode s c i p free u,
        lt→ltb i 10 small,
        add_int-pos (i + 2) 2 (omega arith),
        sum,
        ◌>>=◌,
        ==_ne (i + 2) i (omega arith),
        shut,
        sys_close,
      )
      refl

pub minus_two-pos : (k : ℕ) → k + 2 < 2 ^ 31 → minus_two (pos (k + 2)) ≡ ok (pos k)
minus_two-pos k h =
    let back : k + 2 - 2 ≡ k = omega arith in
    add_int-negsuc (k + 2) 1 (omega arith) h ∙ ap (λ (n : ℕ). ok (pos n)) back
