-- ===== src/DsaEmu.antt =====
-- libdsaemu.cc and libdsaemu.hh: a thread that copies memory for the descriptors in a queue.
pub mod Rounds
use snapshot_public.Prelude.{
  ℕ, zero, suc, ◌+◌, ◌%◌, Bool, Option, none, some, List, [], ◌∷◌, ◌++◌, ◌==◌, if◌then◌else◌,
  get_elem?, ◌>>=◌,
}
use snapshot_public.StoreInst.Memory.{Mem, memcpy, word}

-- `jobdesc_t`, with the two bits of its flags
pub record Jobdesc : Type 0 where
  pub src : ℕ
  pub dst : ℕ
  pub bytes : ℕ
  pub flush : Bool
  pub drain : Bool

-- The calls of `pmemops`
pub data PmemOp : Type 0 where
  flushed : (dst bytes : ℕ) → PmemOp
  drained : PmemOp

-- The queue of QSIZE descriptors with its two ends, the memory, and the calls made so far.
pub record Device : Type 0 where
  pub queue_head : ℕ
  pub queue_tail : ℕ
  pub queue : List Jobdesc
  pub mem : Mem
  pub ops : List PmemOp

-- `clear_queue`
unfoldable pub clear_queue : Device → Device
clear_queue d = record d { queue_head = 0; queue_tail = 0 }

unfoldable pub job_ops : Jobdesc → List PmemOp
job_ops job =
    (if job.flush then flushed job.dst job.bytes ∷ [] else [])
    ++ (if job.drain then drained ∷ [] else [])

-- The body of the loop of `dsa_logic_loop` for a descriptor.
unfoldable pub serve : Jobdesc → Device → Device
serve job d = record d {
  mem = memcpy d.mem job.dst d.mem job.src job.bytes;
  ops = d.ops ++ job_ops job;
  queue_head = (d.queue_head + 1) % word;
}

-- A round of the loop; `none` is a read behind the queue.
unfoldable pub dsa_round : Device → Option Device
dsa_round d =
    let served = (get_elem? d.queue d.queue_tail >>= λ job. some (serve job d)) in
    if d.queue_head == d.queue_tail then some d else served

unfoldable pub dsa_rounds : ℕ → Device → Option Device
dsa_rounds zero d = some d
dsa_rounds (suc n) d = dsa_round d >>= λ d'. dsa_rounds n d'
