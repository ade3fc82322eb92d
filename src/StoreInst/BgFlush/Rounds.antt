-- ===== src/StoreInst/BgFlush/Rounds.antt =====
-- What the background thread flushes.
use snapshot_public.Prelude.{
  ℕ, zero, suc, ◌+◌, ◌≤◌, ◌<◌, ◌≡◌, refl, true, false, Option, some, List, [], ◌∷◌, ltb, ◌==◌,
  ◌>>=◌, All, arith, Bool-cases, inl, inr,
}
use snapshot_public.StoreInst.BgFlush.{
  BgfJob, Queue, write_slot, move_tail, round, write_job, clear_queue, is_drained,
}

-- What happens next: a step of a push, or a round of the background thread.
pub data Event : Type 0 where
  slot_written : BgfJob → Event
  tail_moved rounded : Event

unfoldable pub handle : Event → Queue → Option Queue
handle (slot_written entry) q = write_slot entry q
handle tail_moved q = some (move_tail q)
handle rounded q = round q

unfoldable pub handle_all : List Event → Queue → Option Queue
handle_all [] q = some q
handle_all (e ∷ es) q = handle e q >>= λ q'. handle_all es q'

-- The pushes are whole: nothing falls between the two steps of one.
abbrev pub IsWhole : List Event → Type 0
IsWhole [] = Unit
IsWhole (slot_written entry ∷ tail_moved ∷ es) = IsWhole es
IsWhole (slot_written entry ∷ _) = ⊥
IsWhole (tail_moved ∷ es) = ⊥
IsWhole (rounded ∷ es) = IsWhole es

unfoldable pub pushes : List Event → ℕ
pushes [] = 0
pushes (slot_written entry ∷ es) = pushes es
pushes (tail_moved ∷ es) = pushes es + 1
pushes (rounded ∷ es) = pushes es

-- Nothing but `old` jobs stand from the tail on, and were flushed.
record IsStale (old : BgfJob) (q : Queue) : Type 0 where
  ordered : q.queue_head ≤ q.queue_tail
  behind : (i : ℕ) → q.queue_tail ≤ i → q.job_queue i ≡ old
  stale : All (λ j. j ≡ old) q.flushed

handle_all-IsStale :
    (old : BgfJob) (es : List Event) (q : Queue)
    → IsStale old q
    → IsWhole es
    → q.queue_tail + pushes es < 128
    → (q' : Queue) × (handle_all es q ≡ some q') × IsStale old q'
unfolding handle_all handle write_slot move_tail round write_job pushes
handle_all-IsStale old [] q s w h = (q, refl, s)
handle_all-IsStale old (slot_written entry ∷ []) q s w h = absurd w
handle_all-IsStale old (slot_written entry ∷ slot_written e ∷ es) q s w h = absurd w
handle_all-IsStale old (slot_written entry ∷ rounded ∷ es) q s w h = absurd w
handle_all-IsStale old (tail_moved ∷ es) q s w h = absurd w
handle_all-IsStale old (slot_written entry ∷ tail_moved ∷ es) q s w h =
    let q1 = record q {
      job_queue = write_job q.job_queue q.queue_tail entry;
      queue_tail = q.queue_tail + 1;
    } in
    let s1 : IsStale old q1 = record {
      ordered = (let o = s.ordered in omega arith);
      behind = λ i k. ground (arith, s.behind i);
      stale = s.stale;
    } in
    let room : ltb q.queue_tail 128 ≡ true = ground arith in
    let (q', e, s') = handle_all-IsStale old es q1 s1 w (omega arith) in (q', simp (room, e), s')
handle_all-IsStale old (rounded ∷ es) q s w h = elim (Bool-cases (q.queue_head == q.queue_tail)) [
  | inl same ↦ let (q', e, s') = handle_all-IsStale old es q s w h in (q', simp (same, e), s')
  | inr other ↦
      let q1 = record q {
        flushed = q.job_queue q.queue_tail ∷ q.flushed;
        queue_head = q.queue_head + 1;
      } in
      let s1 : IsStale old q1 = record {
        ordered = ground (arith, s.ordered);
        behind = s.behind;
        stale = (s.behind q.queue_tail (omega arith), s.stale);
      } in
      let room : ltb q.queue_tail 128 ≡ true = ground arith in
      let (q', e, s') = handle_all-IsStale old es q1 s1 w (omega arith) in
      (q', simp (other, room, e), s')
]

-- What the background thread flushes does not depend on what is pushed: from a cleared queue whose
-- slots all hold the same job, with nothing flushed yet, any sequence of rounds and fewer than 128
-- pushes, in which no round falls between the two steps of a push, stays inside the array, and
-- every flush is of that job.
pub handle_all_flushes_old :
    (old : BgfJob) (es : List Event) (q : Queue)
    → ((i : ℕ) → q.job_queue i ≡ old)
    → q.flushed ≡ []
    → IsWhole es
    → pushes es < 128
    → (q' : Queue) × (handle_all es (clear_queue q) ≡ some q') × All (λ j. j ≡ old) q'.flushed
unfolding clear_queue
handle_all_flushes_old old es q slots new whole few =
    let (q', e, s) =
      handle_all-IsStale old es (clear_queue q)
        (record { ordered = omega arith; behind = λ i h. slots i; stale = rw new tt }) whole
        (omega arith) in
    (q', e, s.stale)

unfoldable pub rounds : ℕ → List Event
rounds zero = []
rounds (suc n) = rounded ∷ rounds n

-- `drain` ends: as many rounds as there are jobs between the head and the tail of the queue, and no
-- pushes, bring it to the end of its wait, if the tail is inside the array.
pub rounds-is_drained :
    (n : ℕ) (q : Queue)
    → q.queue_head + n ≡ q.queue_tail
    → q.queue_tail < 128
    → (q' : Queue) × (handle_all (rounds n) q ≡ some q') × (is_drained q' ≡ true)
unfolding handle_all handle round is_drained rounds
rounds-is_drained zero q e h = (q, refl, ground arith)
rounds-is_drained (suc n) q e h =
    let q1 = record q {
      flushed = q.job_queue q.queue_tail ∷ q.flushed;
      queue_head = q.queue_head + 1;
    } in
    let other : (q.queue_head == q.queue_tail) ≡ false = ground arith in
    let room : ltb q.queue_tail 128 ≡ true = ground arith in
    let (q', r, d) = rounds-is_drained n q1 (omega arith) h in (q', simp (other, room, r), d)
