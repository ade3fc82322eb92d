-- ===== src/Witnesses/ListRuns.antt =====
-- Commands to a list that is empty at first.
use snapshot_public.Prelude.{ℕ, ◌+◌, ◌≤◌, ◌≡◌, ◌≢◌, refl, none, some, List, [], ◌∷◌, arith}
use snapshot_public.Examples.LinkedList.{
  Heap, ListState, Allocate, Command, insert, insert_many, remove_many, remove, count, print, sum,
  run,
}
use snapshot_public.Examples.Stores.{load}
use snapshot_public.Examples.LinkedList.Chains.{Nodes}
use snapshot_public.Examples.LinkedList.Moves.{IsAllocator, IsListOf}
use snapshot_public.Examples.LinkedList.Queue.{exec_queue, run_queue, run-run_queue}

-- An address above all that are allocated.
abbrev above : Heap → ℕ
above [] = 1
above ((a, n) ∷ h) = a + above h + 1

load-above : (h : Heap) (p : ℕ) → above h ≤ p → load h p ≡ none
unfolding load
load-above [] p le = refl
load-above ((a, n) ∷ h) p le =
    let rest = load-above h p (omega arith) in let apart : p ≢ a = omega arith in ground arith

above-pos : (h : Heap) → above h ≢ 0
above-pos [] = omega arith
above-pos ((a, n) ∷ h) = omega arith

abbrev allocate : Allocate
allocate h = some (above h)

allocate-IsAllocator : IsAllocator allocate
allocate-IsAllocator h = (above h, refl, above-pos h, load-above h (above h) (omega arith))

abbrev none_yet : ListState
none_yet = record { heap = []; head = 0; tail = 0 }

none_yet-IsListOf : IsListOf none_yet []
none_yet-IsListOf = record { head = refl; tail = refl; chain = tt; distinct = tt }

abbrev commands : List Command
commands =
    insert 5
    ∷ insert 6
    ∷ count
    ∷ remove
    ∷ insert_many 2
    ∷ insert 7
    ∷ print
    ∷ sum
    ∷ remove_many 3
    ∷ print
    ∷ []

run-run_queue_example :
    (st' : ListState) × (ms : Nodes) × (run allocate 8 commands none_yet
      ≡ some (
        [] ∷ [] ∷ (2 ∷ []) ∷ [] ∷ [] ∷ [] ∷ (6 ∷ 0 ∷ 1 ∷ 7 ∷ []) ∷ (1400 ∷ []) ∷ [] ∷ (7 ∷ []) ∷ [],
        st',
      ))
    × IsListOf st' ms
unfolding exec_queue run_queue
run-run_queue_example =
    run-run_queue allocate 8 commands none_yet [] allocate-IsAllocator none_yet-IsListOf
      (omega arith)
