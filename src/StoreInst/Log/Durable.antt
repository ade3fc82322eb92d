-- ===== src/StoreInst/Log/Durable.antt =====
-- Which bytes of the log area are durable: what the flushes of log.cc reach. `clwb` writes back
-- whole cache lines of 64 bytes.
use snapshot_public.Prelude.{
  ℕ, ◌+◌, ◌*◌, ◌/◌, ◌%◌, ◌≤◌, ◌<◌, ◌≡◌, ◌≢◌, refl, Bool, true, false, ◌&&◌, List, [], ◌∷◌, arith,
  ltb, leb, if◌then◌else◌,
}
use snapshot_public.StoreInst.Memory.{Mem}
use snapshot_public.StoreInst.Log.{
  Log, PmemOp, write, flush, streaming, drain, Runtime, LeanEntry, layout_size, log_range,
  append_entry, flush_lines, flush_all, clear, remember, lean, init_thread_buf, log_range_cases,
}

-- The byte `x` of the log area has been written back since it was last stored to.
unfoldable pub written_back : List PmemOp → ℕ → Bool
written_back [] x = false
written_back (write o n ∷ ops) x = if leb o x && ltb x (o + n) then false else written_back ops x
written_back (flush o n ∷ ops) x =
    if ltb 0 n && leb (o / 64 * 64) x && ltb x ((o + n + 63) / 64 * 64)
    then true
    else written_back ops x
written_back (streaming o n ∷ ops) x = if leb o x && ltb x (o + n) then true else written_back ops x
written_back (drain ∷ ops) x = written_back ops x

-- What holds between the flushes: all content below the flush offset is written back, and none
-- from there on.
pub record IsTracked (l : Log) : Type 0 where
  pub tail : l.log_area.tail_ptr ≡ l.log_area.log_offset
  pub aligned : l.last_flush_offset % 64 ≡ 0
  pub not_ahead : l.last_flush_offset ≤ l.log_area.log_offset
  pub behind : (x : ℕ) → layout_size ≤ x → x < l.last_flush_offset → written_back l.ops x ≡ true
  pub pending :
      (x : ℕ)
      → layout_size ≤ x
      → l.last_flush_offset ≤ x
      → x < layout_size + l.log_area.log_offset
      → written_back l.ops x ≡ false

-- Moreover less than a cache line is pending.
pub record IsFlushed (l : Log) : Type 0 where
  pub tracked : IsTracked l
  pub near : l.log_area.log_offset < l.last_flush_offset + 64

append_entry-IsTracked :
    (mem : Mem) (l : Log) (start bytes : ℕ)
    → IsTracked l
    → IsTracked (append_entry mem l start bytes)
unfolding append_entry written_back
append_entry-IsTracked mem l start bytes t = record {
  tail = ground (arith, t.tail);
  aligned = t.aligned;
  not_ahead = omega (arith, t.not_ahead);
  behind = λ x h k. ground (arith, t.tail, t.not_ahead, t.behind x);
  pending = λ x h k m. ground (arith, t.tail, t.pending x);
}

flush_lines-IsFlushed : (l : Log) → IsTracked l → IsFlushed (flush_lines l)
unfolding flush_lines written_back
flush_lines-IsFlushed l t = record {
  tracked = record {
    tail = ground (arith, t.tail);
    aligned = ground (arith, t.aligned, t.not_ahead);
    not_ahead = ground (arith, t.aligned, t.not_ahead);
    behind = λ x h k. ground (arith, t.aligned, t.not_ahead, t.behind x);
    pending = λ x h k m. ground (arith, t.aligned, t.not_ahead, t.pending x);
  };
  near = ground (arith, t.aligned, t.not_ahead);
}

remember-IsFlushed : (l : Log) (start bytes : ℕ) → IsFlushed l → IsFlushed (remember l start bytes)
unfolding remember
remember-IsFlushed l start bytes f = record {
  tracked = record {
    tail = f.tracked.tail;
    aligned = f.tracked.aligned;
    not_ahead = f.tracked.not_ahead;
    behind = f.tracked.behind;
    pending = f.tracked.pending;
  };
  near = f.near;
}

pub last_log-IsTracked :
    (l : Log) (e : LeanEntry) → IsTracked l → IsTracked (record l { last_log = e })
last_log-IsTracked l e t = record {
  tail = t.tail;
  aligned = t.aligned;
  not_ahead = t.not_ahead;
  behind = t.behind;
  pending = t.pending;
}

-- A new log is flushed.
pub init_thread_buf-IsFlushed : IsFlushed init_thread_buf
init_thread_buf-IsFlushed = record {
  tracked = record {
    tail = refl;
    aligned = refl;
    not_ahead = omega arith;
    behind = λ x h k. absurd (omega arith);
    pending = λ x h k m. absurd (omega arith);
  };
  near = omega arith;
}

-- `log_range` keeps this of a log: tail and offset agree, the flush offset is at a line boundary,
-- not behind the end of the log and less than a line before it, all content below it is written
-- back, and none from there on.
pub log_range-IsFlushed :
    (rt : Runtime) (mem : Mem) (l : Log) (start bytes : ℕ)
    → IsFlushed l
    → IsFlushed (log_range rt mem l start bytes).1
log_range-IsFlushed rt mem l start bytes f =
    let r = remember-IsFlushed l start bytes f in
    let named = record (remember l start bytes) { last_log = lean start bytes } in
    log_range_cases IsFlushed rt mem l start bytes (λ _. f) (λ _. r)
      λ _. flush_lines-IsFlushed (append_entry mem named start bytes) (
        append_entry-IsTracked mem named start bytes
          (last_log-IsTracked (remember l start bytes) (lean start bytes) r.tracked))

-- After `clear` nothing is logged, so nothing is pending.
pub clear-IsFlushed : (l : Log) → IsFlushed (clear l)
unfolding clear
clear-IsFlushed l = record {
  tracked = record {
    tail = refl;
    aligned = refl;
    not_ahead = omega arith;
    behind = λ x h k. absurd (omega arith);
    pending = λ x h k m. absurd (omega arith);
  };
  near = omega arith;
}

-- `flush_all` completes the write-back of a log, as `log_range` keeps it, that does not end on a line
-- boundary: every byte of its content has been written back since it was last stored to.
pub flush_all_writes_back :
    (l : Log) (x : ℕ)
    → IsFlushed l
    → l.log_area.log_offset % 64 ≢ 0
    → layout_size ≤ x
    → x < layout_size + l.log_area.log_offset
    → written_back (flush_all l).ops x ≡ true
unfolding flush_all written_back
flush_all_writes_back l x f odd h k =
    ground (arith, f.near, f.tracked.aligned, f.tracked.not_ahead, f.tracked.behind x)

-- `flush_all` leaves out the last bytes of a log, as `log_range` keeps it, that ends on a line
-- boundary, those of its content behind the first `log_offset` bytes of the log area: they have been
-- stored to and not written back.
pub flush_all_skips_tail :
    (l : Log) (x : ℕ)
    → IsFlushed l
    → l.log_area.log_offset % 64 ≡ 0
    → l.log_area.log_offset ≤ x
    → layout_size ≤ x
    → x < layout_size + l.log_area.log_offset
    → written_back (flush_all l).ops x ≡ false
unfolding flush_all
flush_all_skips_tail l x f even h k m =
    ground (arith, f.near, f.tracked.aligned, f.tracked.not_ahead, f.tracked.pending x)
