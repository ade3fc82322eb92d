-- ===== src/StoreInst/Log.antt =====
-- log.hh and log.cc: the per-thread undo log. The build is the default one of make.config
-- (LOG_FORMAT_VOLATILE, no testing goodies) in its release form, so neither the assertions nor
-- the statistics of the debug build occur.
pub mod Durable
use snapshot_public.Prelude.{
  ℕ, zero, suc, ◌+◌, ◌-◌, ◌*◌, ◌/◌, ◌%◌, ◌≡◌, refl, inl, inr, Bool, true, false, not, ◌&&◌, List,
  [], ◌∷◌, ◌++◌, ltb, ◌==◌, if◌then◌else◌, Bool-cases,
}
use snapshot_public.StoreInst.Memory.{Mem}
use snapshot_public.StoreInst.Entry.{header_size, write_entry}

-- `Log::State`
pub data State : Type 0 where
  empty active committed : State

-- `log_entry_lean_t`
pub record LeanEntry : Type 0 where
  pub addr : ℕ
  pub bytes : ℕ

abbrev pub lean : ℕ → ℕ → LeanEntry
lean a n = record { addr = a; bytes = n }

-- `log_layout_t`. `content` maps an offset into the log's content to its byte, and `tail_ptr` is
-- such an offset.
pub record Layout : Type 0 where
  pub state : State
  pub log_offset : ℕ
  pub tail_ptr : ℕ
  pub content : Mem

-- What reaches the log area in persistent memory, by offsets from the start of the area: plain
-- stores, flushes, streaming stores (which bypass the cache) and fences.
pub data PmemOp : Type 0 where
  write flush streaming : ℕ → ℕ → PmemOp
  drain : PmemOp

-- `Log`. `ops` is the history of the log area, the newest operation first.
pub record Log : Type 0 where
  pub log_area : Layout
  pub last_log : LeanEntry
  pub last_flush_offset : ℕ
  pub entries : List LeanEntry
  pub ops : List PmemOp

-- The globals that the log reads and writes.
pub record Runtime : Type 0 where
  pub cxl_mode_enabled : Bool
  pub store_inst_enabled : Bool
  pub start_tracking : Bool
  pub start_addr : ℕ
  pub end_addr : ℕ
  pub back_to_back_dup_log : ℕ

-- sizeof(log_layout_t): the offset of `content` in the log area.
abbrev pub layout_size : ℕ
layout_size = 24

-- Offsets of `log_offset` and `tail_ptr` in the log area.
abbrev pub log_offset_at : ℕ
log_offset_at = 8

abbrev pub tail_ptr_at : ℕ
tail_ptr_at = 16

-- `log_area->log_offset = n`
unfoldable pub set_log_offset : ℕ → Log → Log
set_log_offset n l = record l {
  log_area = record l.log_area { log_offset = n };
  ops = write log_offset_at 8 ∷ l.ops;
}

-- `log_area->tail_ptr = n`
unfoldable pub set_tail_ptr : ℕ → Log → Log
set_tail_ptr n l = record l {
  log_area = record l.log_area { tail_ptr = n };
  ops = write tail_ptr_at 8 ∷ l.ops;
}

-- `Log::clear`
unfoldable pub clear : Log → Log
unfolding set_log_offset set_tail_ptr
clear l = record (set_tail_ptr 0 (set_log_offset 0 l)) {
  last_flush_offset = 0;
  last_log = lean 0 0;
  entries = [];
}

-- `Log::set_state`
unfoldable pub set_state : State → Bool → Log → Log
set_state s flush_whole l = record l {
  log_area = record l.log_area { state = s };
  ops =
      drain
      ∷ (if flush_whole then flush 0 layout_size ∷ write 0 8 ∷ l.ops else streaming 0 8 ∷ l.ops);
}

-- `Log::flush_all`
unfoldable pub flush_all : Log → Log
flush_all l = if l.last_flush_offset == l.log_area.log_offset then l else record l {
  ops =
      flush (layout_size + l.last_flush_offset) (l.log_area.log_offset - l.last_flush_offset)
      ∷ l.ops;
}

-- The part of `log_range` that writes the entry and moves the tail.
unfoldable pub append_entry : Mem → Log → ℕ → ℕ → Log
unfolding set_log_offset set_tail_ptr
append_entry mem l start bytes =
    let area = l.log_area in
    let entry_sz = header_size + bytes in
    let filled = record l {
      log_area = record area { content = write_entry area.content area.tail_ptr mem start bytes };
      ops = write (layout_size + area.tail_ptr) entry_sz ∷ l.ops;
    } in
    set_tail_ptr (area.tail_ptr + entry_sz) (set_log_offset (area.log_offset + entry_sz) filled)

-- The part of `log_range` that flushes whole cache lines. `last_flush_offset` never exceeds
-- `log_offset`, so the difference is the one of `size_t`.
unfoldable pub flush_lines : Log → Log
flush_lines l =
    let last = l.last_flush_offset in
    let offset = l.log_area.log_offset in
    let cls_to_flush = (offset - last + 63) / 64 in
    if offset % 64 == 0
    then record l { ops = flush last (cls_to_flush * 64) ∷ l.ops; last_flush_offset = offset }
    else if ltb 1 cls_to_flush
    then record l {
      ops = flush last ((cls_to_flush - 1) * 64) ∷ l.ops;
      last_flush_offset = last + (cls_to_flush - 1) * 64;
    }
    else l

-- `entries.emplace_back`
unfoldable pub remember : Log → ℕ → ℕ → Log
remember l start bytes = record l { entries = l.entries ++ lean start bytes ∷ [] }

-- The test of `log_range` for a repetition of the last logged range.
unfoldable pub is_back_to_back : Log → ℕ → ℕ → Bool
is_back_to_back l start bytes = (l.last_log.addr == start) && (l.last_log.bytes == bytes)

-- `Log::log_range`
unfoldable pub log_range : Runtime → Mem → Log → ℕ → ℕ → Runtime × Log
log_range rt mem l start bytes =
    let seen = remember l start bytes in
    if not rt.cxl_mode_enabled
    then (rt, l)
    else if is_back_to_back l start bytes
    then (
      record rt { store_inst_enabled = true; back_to_back_dup_log = rt.back_to_back_dup_log + 1 },
      seen,
    )
    else (
      record rt { store_inst_enabled = true },
      flush_lines (append_entry mem (record seen { last_log = lean start bytes }) start bytes),
    )

-- The log that `log_range` leaves when it writes an entry.
abbrev pub logged : Mem → Log → ℕ → ℕ → Log
logged mem l start bytes =
    flush_lines (
      append_entry mem (record (remember l start bytes) { last_log = lean start bytes }) start
        bytes)

-- The three outcomes of `log_range`.
pub log_range_cases :
    (P : Log → Type 0) (rt : Runtime) (mem : Mem) (l : Log) (start bytes : ℕ)
    → (rt.cxl_mode_enabled ≡ false → P l)
    → (is_back_to_back l start bytes ≡ true → P (remember l start bytes))
    → (is_back_to_back l start bytes ≡ false → P (logged mem l start bytes))
    → P (log_range rt mem l start bytes).1
unfolding log_range
log_range_cases P rt mem l start bytes off again new = elim (Bool-cases rt.cxl_mode_enabled) [
  | inr e ↦ rw e (off e)
  | inl e ↦ elim (Bool-cases (is_back_to_back l start bytes)) [
    | inl d ↦ rw (e, d) (again d)
    | inr d ↦ rw (e, d) (new d)
  ]
]

-- `log_area` after `init_thread_buf`: the file is new, so its bytes are zero.
abbrev pub init_thread_buf : Log
init_thread_buf = record {
  log_area = record { state = empty; log_offset = 0; tail_ptr = 0; content = λ _. 0 };
  last_log = lean 0 0;
  last_flush_offset = 0;
  entries = [];
  ops = write tail_ptr_at 8 ∷ write log_offset_at 8 ∷ [];
}
