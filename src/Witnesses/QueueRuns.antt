-- ===== src/Witnesses/QueueRuns.antt =====
-- Two flushes are pushed, with rounds of the background thread between them.
use snapshot_public.Prelude.{◌≡◌, refl, true, some, List, [], ◌∷◌, All, arith}
use snapshot_public.StoreInst.BgFlush.{BgfJob, Queue, clear_queue, is_drained}
use snapshot_public.StoreInst.BgFlush.Rounds.{
  Event, slot_written, tail_moved, rounded, handle_all, pushes, rounds, handle_all_flushes_old,
  rounds-is_drained,
}

abbrev no_job : BgfJob
no_job = record { addr = 0; bytes = 0 }

abbrev queue : Queue
queue = record { queue_head = 3; queue_tail = 5; job_queue = λ _. no_job; flushed = [] }

abbrev events : List Event
events =
    slot_written (record { addr = 4096; bytes = 64 })
    ∷ tail_moved
    ∷ rounded
    ∷ slot_written (record { addr = 8192; bytes = 8 })
    ∷ tail_moved
    ∷ rounded
    ∷ rounded
    ∷ []

handle_all_flushes_old_example :
    (q' : Queue) × (handle_all events (clear_queue queue) ≡ some q')
    × All (λ j. j ≡ no_job) q'.flushed
unfolding pushes
handle_all_flushes_old_example =
    handle_all_flushes_old no_job events queue (λ i. refl) refl tt (omega arith)

rounds-is_drained_example :
    (q' : Queue) × (handle_all (rounds 2) queue ≡ some q') × (is_drained q' ≡ true)
rounds-is_drained_example = rounds-is_drained 2 queue refl (omega arith)
