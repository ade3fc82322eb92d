-- ===== src/StoreInst/Snapshot.antt =====
-- libc_wrappers.cc, `snapshot`: every thread's log is flushed and marked active, the logged
-- ranges are copied to the backing file, and the log is dropped.
pub mod Sorting
pub mod Effect
pub mod Persist
pub mod Crash
use mathlib.Core.List.{Permᴰ}
use snapshot_public.Prelude.{
  ℕ, zero, suc, ◌+◌, ◌-◌, ◌*◌, ◌/◌, ◌%◌, ◌≡◌, Bool, true, false, not, ◌&&◌, ◌||◌, Option, none,
  some, List, [], ◌∷◌, ltb, leb, ◌==◌, if◌then◌else◌, length, ◌>>=◌,
}
use snapshot_public.StoreInst.Memory.{Mem, memcpy, add64, sub64}
use snapshot_public.StoreInst.Log.{
  State, empty, active, LeanEntry, PmemOp, write, flush, streaming, drain, Log, Runtime, clear,
  set_state, set_log_offset, flush_all,
}
use snapshot_public.StoreInst.Apply.{Progress, apply_entries}

-- `std::sort` by address. It is unstable: all that is known of the order of entries with one
-- address is that no entry is lost or invented.
pub record Sorter : Type 0 where
  pub sort : List LeanEntry → List LeanEntry
  pub sort-perm : (l : List LeanEntry) → Permᴰ (sort l) l

-- An element of `mapped_addr`: a mapped range and the file behind it, with its size, and whether its
-- name is still there when `snapshot` asks for the size.
pub record Mapping : Type 0 where
  pub start : ℕ
  pub end : ℕ
  pub is_anonymous : Bool
  pub file_size : ℕ
  pub file_exists : Bool

-- The globals that `snapshot` reads, and the thread logs that it walks over. `cache_resizes` tells
-- whether there is no paging cache, or its `resize_cache` returns.
pub record Machine : Type 0 where
  pub rt : Runtime
  pub mem : Mem
  pub backing : Mem
  pub backing_ops : List PmemOp
  pub tls_logs : List Log
  pub backing_file_start : ℕ
  pub mapped_addr : List Mapping
  pub first_snapshot : Bool
  pub nop_msync : Bool
  pub cache_resizes : Bool
  pub snapshots : ℕ
  pub real_msyncs : ℕ

-- The address at which the first snapshot takes the tracked range to begin.
abbrev pub default_start : ℕ
default_start = 0x10000000000

-- The first snapshot copies the whole range that holds `addr` from the page cache.
unfoldable pub copy_mapping : ℕ → List Mapping → Mem → ℕ → Mem → Mem
copy_mapping pm_back [] mem addr backing = backing
copy_mapping pm_back (r ∷ rs) mem addr backing =
    let rest = copy_mapping pm_back rs mem addr backing in
    if leb r.start addr && ltb addr r.end
    then memcpy backing (add64 pm_back (sub64 r.start default_start)) mem r.start
        (if r.is_anonymous then r.end - r.start else r.file_size)
    else rest

-- Whether the size of the file behind the range that holds `addr` is found; `fs::file_size` throws
-- where it is not.
unfoldable pub size_found : ℕ → List Mapping → Bool
size_found addr [] = true
size_found addr (r ∷ rs) =
    let rest = size_found addr rs in
    if leb r.start addr && ltb addr r.end then r.is_anonymous || r.file_exists else rest

-- Whether the first snapshot gets past its copy and the resizing of the paging cache, which are done
-- for the first of the logs.
unfoldable pub first_returns : Machine → ℕ → Bool
first_returns m addr =
    not m.first_snapshot
    || length m.tls_logs == 0
    || size_found addr m.mapped_addr && m.cache_resizes

-- The state of the walk over the logs: the backing file, what was done to it, and whether the
-- first snapshot is still to come.
pub record Walk : Type 0 where
  pub backing : Mem
  pub ops : List PmemOp
  pub first_snapshot : Bool

-- What is done to a thread's log before its entries are copied.
unfoldable pub begin_log : Log → Log
begin_log l = set_state active true (set_log_offset 0 (flush_all l))

-- `log_list`, sorted if it is long.
unfoldable pub log_list : Sorter → Log → List LeanEntry
log_list sorter l = if ltb 10 (length l.entries) then sorter.sort l.entries else l.entries

-- `none` is the exit where not all entries were applied.
unfoldable pub end_log : Progress → Log → Option Log
end_log p l = if p.applied_cnt == p.entry_cnt then some (clear (set_state empty false l)) else none

abbrev pub start_progress : Mem → List PmemOp → Progress
start_progress backing ops = record {
  backing = backing;
  ops = ops;
  applied_cnt = 0;
  entry_cnt = 0;
  total_proc = 0;
  bytes_flushed = 0;
}

module _ (sorter : Sorter) (m : Machine) (addr bytes : ℕ) where
  -- The backing file when the copying of a log's entries begins.
  unfoldable pub first_backing : Walk → Mem
  first_backing w =
      if w.first_snapshot
      then copy_mapping m.backing_file_start m.mapped_addr m.mem addr w.backing
      else w.backing

  -- The loop over the entries of one log.
  unfoldable pub copy_log : Log → Walk → Progress
  copy_log l w =
      apply_entries m.rt.start_addr m.backing_file_start m.mem addr bytes none
        (log_list sorter (begin_log l)) (start_progress (first_backing w) w.ops)

  -- The body of the loop over `tls_logs`.
  unfoldable pub snapshot_log : Log → Walk → Option (Log × Walk)
  snapshot_log l w =
      let p = copy_log l w in
      do
        l' ← end_log p (record (begin_log l) { entries = log_list sorter (begin_log l) })
        some (l', record { backing = p.backing; ops = drain ∷ p.ops; first_snapshot = false })

  unfoldable pub snapshot_logs : List Log → Walk → Option (List Log × Walk)
  snapshot_logs [] w = some ([], w)
  snapshot_logs (l ∷ ls) w = do
    (l', w') ← snapshot_log l w
    (ls', w'') ← snapshot_logs ls w'
    some (l' ∷ ls', w'')

-- `snapshot`; `real_msync` tells whether the call of libc's `msync` with these arguments
-- succeeds. `none` is the end of the program, also by an exception in the first snapshot.
unfoldable pub snapshot : Sorter → (ℕ → ℕ → Bool) → Machine → ℕ → ℕ → Option Machine
snapshot sorter real_msync m addr bytes =
    let counted = record m { snapshots = m.snapshots + 1 } in
    if m.nop_msync
    then some counted
    else if m.rt.store_inst_enabled
    then if not (first_returns m addr) then none else (do
      (logs, w) ←
          snapshot_logs sorter m addr bytes m.tls_logs
            (record { backing = m.backing; ops = m.backing_ops; first_snapshot = m.first_snapshot })
      some (record counted {
        backing = w.backing;
        backing_ops = w.ops;
        tls_logs = logs;
        first_snapshot = w.first_snapshot;
      }))
    else if real_msync (addr / 4096 * 4096) bytes
    then some (record counted { real_msyncs = m.real_msyncs + 1 })
    else none
