-- ===== src/StoreInst/Apply.antt =====
-- libc_wrappers.cc, the loop of `snapshot` over one log: the logged ranges that lie in the range of
-- the snapshot are copied from the page cache to the backing file. Addresses of the page cache
-- (`mem`) and of the mapped backing file (`backing`) are kept apart: the two mappings do not
-- overlap.
pub mod Copies
pub mod Loop
use snapshot_public.Prelude.{
  ℕ, zero, suc, ◌+◌, ◌-◌, ◌*◌, ◌/◌, ◌%◌, ◌≡◌, Bool, true, false, not, ◌&&◌, Option, none, some,
  List, [], ◌∷◌, ltb, leb, ◌==◌, if◌then◌else◌, length, ◌>>=◌,
}
use snapshot_public.StoreInst.Memory.{Mem, memcpy, add64, sub64}
use snapshot_public.StoreInst.Log.{
  State, empty, active, LeanEntry, PmemOp, write, flush, streaming, drain, Log, Runtime, clear,
  set_state, set_log_offset, flush_all,
}
use snapshot_public.StoreInst.Align.{align_to, align_dst, new_size}

-- The backing file and the counters of the loop over a log's entries.
pub record Progress : Type 0 where
  pub backing : Mem
  pub ops : List PmemOp
  pub applied_cnt : ℕ
  pub entry_cnt : ℕ
  pub total_proc : ℕ
  pub bytes_flushed : ℕ

-- `entry.addr - start <= diff`, a comparison of words.
unfoldable pub in_range : ℕ → ℕ → LeanEntry → Bool
in_range start diff e = leb (sub64 e.addr start) diff

-- `skip_entry`: the entry repeats the one before it.
unfoldable pub skip_entry : Option LeanEntry → LeanEntry → Bool
skip_entry none e = false
skip_entry (some e') e = (e.addr == e'.addr) && (e.bytes == e'.bytes)

-- The loop leaves at an entry with address 0 that it did not copy.
unfoldable pub is_break : ℕ → ℕ → Option LeanEntry → LeanEntry → Bool
is_break start diff prev e = not (in_range start diff e && not (skip_entry prev e)) && (e.addr == 0)

module _ (start_addr pm_back : ℕ) (mem : Mem) where
  -- The copy of one logged range: a widened streaming write from eight bytes on, else a plain
  -- copy and a flush.
  unfoldable pub copy_entry : LeanEntry → Progress → Progress
  copy_entry e p =
      let dst_addr = add64 pm_back (sub64 e.addr start_addr) in
      let to = align_to e.bytes in
      let dst_addr_arg = align_dst dst_addr to in
      let src_addr_arg = add64 (sub64 dst_addr_arg pm_back) start_addr in
      let new_sz = new_size dst_addr e.bytes to in
      if leb 8 e.bytes
      then record p {
        backing = memcpy p.backing dst_addr_arg mem src_addr_arg new_sz;
        ops = streaming dst_addr_arg new_sz ∷ p.ops;
      }
      else record p {
        backing = memcpy p.backing dst_addr mem e.addr e.bytes;
        ops = flush dst_addr e.bytes ∷ write dst_addr e.bytes ∷ p.ops;
      }

  -- One round of the loop up to its `break`.
  unfoldable pub apply_one : ℕ → ℕ → Option LeanEntry → LeanEntry → Progress → Progress
  apply_one start diff prev e p =
      if in_range start diff e
      then (if skip_entry prev e
          then record p { entry_cnt = p.entry_cnt + 1; applied_cnt = p.applied_cnt + 1 }
          else copy_entry e
              (record p { entry_cnt = p.entry_cnt + 1; applied_cnt = p.applied_cnt + 1 }))
      else p

  -- The loop over the log's entries, `prev` being the entry before.
  unfoldable pub apply_entries : ℕ → ℕ → Option LeanEntry → List LeanEntry → Progress → Progress
  apply_entries start diff prev [] p = p
  apply_entries start diff prev (e ∷ es) p =
      let q = apply_one start diff prev e p in
      let rest =
        apply_entries start diff (some e) es
          (record q { bytes_flushed = q.bytes_flushed + e.bytes; total_proc = q.total_proc + 1 }) in
      if is_break start diff prev e then q else rest
