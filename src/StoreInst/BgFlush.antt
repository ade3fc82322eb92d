-- ===== src/StoreInst/BgFlush.antt =====
-- bgflush.cc: a queue of flushes for a background thread, which make.config leaves out by default.
-- A push is two steps, without a lock: the entry is written to its slot, and the tail is moved. The
-- background thread takes a round at a time, which may fall between the two.
pub mod Rounds
use snapshot_public.Prelude.{
  ℕ, ◌+◌, Bool, not, Option, none, some, List, [], ◌∷◌, ltb, ◌==◌, if◌then◌else◌, ◌>>=◌,
}

-- `bgf_job_t`
pub record BgfJob : Type 0 where
  pub addr : ℕ
  pub bytes : ℕ

abbrev pub bgf_job_queue_max_len : ℕ
bgf_job_queue_max_len = 128

-- The queue, and what was flushed, the newest first.
pub record Queue : Type 0 where
  pub queue_head : ℕ
  pub queue_tail : ℕ
  pub job_queue : ℕ → BgfJob
  pub flushed : List BgfJob

unfoldable pub write_job : (ℕ → BgfJob) → ℕ → BgfJob → ℕ → BgfJob
write_job jobs i entry k = if k == i then entry else jobs k

-- The writes of `push` to the slot; `none` is an access outside the array.
unfoldable pub write_slot : BgfJob → Queue → Option Queue
write_slot entry q =
    if ltb q.queue_tail bgf_job_queue_max_len
    then some (record q { job_queue = write_job q.job_queue q.queue_tail entry })
    else none

-- The end of `push`
unfoldable pub move_tail : Queue → Queue
move_tail q = record q { queue_tail = q.queue_tail + 1 }

-- `push` without a round in its middle
unfoldable pub push : BgfJob → Queue → Option Queue
push entry q = write_slot entry q >>= λ q'. some (move_tail q')

-- A round of `bgflush_thread`
unfoldable pub round : Queue → Option Queue
round q =
    if q.queue_head == q.queue_tail
    then some q
    else if ltb q.queue_tail bgf_job_queue_max_len
    then some
        (record q { flushed = q.job_queue q.queue_tail ∷ q.flushed; queue_head = q.queue_head + 1 })
    else none

-- `bgflush::clear`
unfoldable pub clear_queue : Queue → Queue
clear_queue q = record q { queue_head = 0; queue_tail = 0 }

-- The condition at which `drain` stops waiting.
unfoldable pub is_drained : Queue → Bool
is_drained q = q.queue_head == q.queue_tail
