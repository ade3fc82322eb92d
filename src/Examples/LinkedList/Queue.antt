-- ===== src/Examples/LinkedList/Queue.antt =====
-- The commands of linkedlist_tx.cc against a queue.
use snapshot_public.Prelude.{
  ℕ, zero, suc, ◌+◌, ◌*◌, ◌%◌, ◌^◌, ◌≤◌, ◌<◌, ◌≡◌, refl, ap, ◌∙◌, some, List, [], ◌∷◌, ◌++◌, length,
  arith, length-append,
}
use snapshot_public.Examples.LinkedList.{
  ListState, Allocate, count_nodes, print_nodes, sum_rounds, sum_nodes, Command, insert, remove,
  count, print, sum, exec, run,
}
use snapshot_public.Examples.LinkedList.Chains.{Nodes}
use snapshot_public.Examples.LinkedList.Loops.{
  values, total, count_nodes_lem, print_nodes_lem, sum_rounds_lem,
}
use snapshot_public.Examples.LinkedList.Moves.{
  IsAllocator, IsListOf, drop_first, values-append, length-values, append_node-IsListOf,
  pop_head-IsListOf,
}
use snapshot_public.Examples.LinkedList.{
  bulk_append_nodes, bulk_delete_nodes, insert_many, remove_many,
}

abbrev pub append_from : (cnt i : ℕ) → List ℕ → List ℕ
append_from zero i xs = xs
append_from (suc cnt) i xs = append_from cnt (i + 1) (xs ++ i ∷ [])

abbrev pub drop_many : ℕ → List ℕ → List ℕ
drop_many zero xs = xs
drop_many (suc cnt) xs = drop_many cnt (drop_first xs)

-- A queue of numbers: what a command prints, and the queue behind it.
unfoldable pub exec_queue : Command → List ℕ → List ℕ × List ℕ
exec_queue (insert val) xs = ([], xs ++ val ∷ [])
exec_queue (insert_many cnt) xs = ([], append_from cnt 0 xs)
exec_queue (remove_many cnt) xs = ([], drop_many cnt xs)
exec_queue remove xs = ([], drop_first xs)
exec_queue count xs = (length xs ∷ [], xs)
exec_queue print xs = (xs, xs)
exec_queue sum xs = (100 * total xs % 2 ^ 64 ∷ [], xs)

unfoldable pub run_queue : List Command → List ℕ → List (List ℕ)
run_queue [] xs = []
run_queue (c ∷ cs) xs = let (out, xs') = exec_queue c xs in out ∷ run_queue cs xs'

-- As many numbers as a command can add.
abbrev pub added : Command → ℕ
added (insert val) = 1
added (insert_many cnt) = cnt
added (remove_many cnt) = 0
added remove = 0
added count = 0
added print = 0
added sum = 0

abbrev pub all_added : List Command → ℕ
all_added [] = 0
all_added (c ∷ cs) = added c + all_added cs

bulk_append_nodes-append_from :
    (allocate : Allocate) (cnt i : ℕ) (st : ListState) (ns : Nodes)
    → IsAllocator allocate
    → IsListOf st ns
    → (st' : ListState) × (ms : Nodes) × (bulk_append_nodes allocate cnt i st ≡ some st')
      × IsListOf st' ms
      × (values ms ≡ append_from cnt i (values ns))
      × (length ms ≤ length ns + cnt)
unfolding bulk_append_nodes
bulk_append_nodes-append_from allocate zero i st ns al w = (st, ns, refl, w, refl, omega arith)
bulk_append_nodes-append_from allocate (suc cnt) i st ns al w =
    let (st', a, done, w') = append_node-IsListOf allocate i st ns al w in
    let ns' : Nodes = ns ++ (a, i) ∷ [] in
    let (st'', ms, rest, w'', same, len) =
      bulk_append_nodes-append_from allocate cnt (i + 1) st' ns' al w' in
    (
      st'',
      ms,
      rw done rest,
      w'',
      same ∙ ap (append_from cnt (i + 1)) (values-append ns (a, i)),
      omega (arith, len, length-append ns ((a, i) ∷ [])),
    )

bulk_delete_nodes-drop_many :
    (cnt : ℕ) (st : ListState) (ns : Nodes)
    → IsListOf st ns
    → (st' : ListState) × (ms : Nodes) × (bulk_delete_nodes cnt st ≡ some st')
      × IsListOf st' ms
      × (values ms ≡ drop_many cnt (values ns))
      × (length ms ≤ length ns)
unfolding bulk_delete_nodes
bulk_delete_nodes-drop_many zero st ns w = (st, ns, refl, w, refl, omega arith)
bulk_delete_nodes-drop_many (suc cnt) st ns w =
    let (st', ms, done, w', same, len) = pop_head-IsListOf st ns w in
    let (st'', ks, rest, w'', same', len') = bulk_delete_nodes-drop_many cnt st' ms w' in
    (st'', ks, rw done rest, w'', same' ∙ ap (drop_many cnt) same, omega (arith, len, len'))

exec-exec_queue :
    (allocate : Allocate) (fuel : ℕ) (c : Command) (st : ListState) (ns : Nodes)
    → IsAllocator allocate
    → IsListOf st ns
    → length ns < fuel
    → (st' : ListState) × (ms : Nodes) × (exec allocate fuel c st
        ≡ some ((exec_queue c (values ns)).0, st'))
      × IsListOf st' ms
      × (values ms ≡ (exec_queue c (values ns)).1)
      × (length ms ≤ length ns + added c)
unfolding exec exec_queue sum_nodes
exec-exec_queue allocate fuel (insert val) st ns al w l =
    let (st', a, done, w') = append_node-IsListOf allocate val st ns al w in
    (
      st',
      ns ++ (a, val) ∷ [],
      rw done refl,
      w',
      values-append ns (a, val),
      omega (arith, length-append ns ((a, val) ∷ [])),
    )
exec-exec_queue allocate fuel (insert_many cnt) st ns al w l =
    let (st', ms, done, w', same, len) = bulk_append_nodes-append_from allocate cnt 0 st ns al w in
    (st', ms, rw done refl, w', same, len)
exec-exec_queue allocate fuel (remove_many cnt) st ns al w l =
    let (st', ms, done, w', same, len) = bulk_delete_nodes-drop_many cnt st ns w in
    (st', ms, rw done refl, w', same, omega (arith, len))
exec-exec_queue allocate fuel remove st ns al w l =
    let (st', ms, done, w', same, len) = pop_head-IsListOf st ns w in
    (st', ms, rw done refl, w', same, omega (arith, len))
exec-exec_queue allocate fuel count st ns al w l =
    let size : 0 + length ns ≡ length (values ns) = omega (arith, length-values ns) in
    let counted : count_nodes fuel st.heap st.head 0 ≡ some (length (values ns)) =
      ap (λ p. count_nodes fuel st.heap p 0) w.head
      ∙ count_nodes_lem fuel st.heap ns 0 w.chain l
      ∙ ap some size in
    (st, ns, rw counted refl, w, refl, omega arith)
exec-exec_queue allocate fuel print st ns al w l =
    let printed : print_nodes fuel st.heap st.head ≡ some (values ns) =
      ap (print_nodes fuel st.heap) w.head ∙ print_nodes_lem fuel st.heap ns w.chain l in
    (st, ns, rw printed refl, w, refl, omega arith)
exec-exec_queue allocate fuel sum st ns al w l =
    let t = total (values ns) in
    let start : (0 + 100 * t) % 2 ^ 64 ≡ 100 * t % 2 ^ 64 = omega arith in
    let summed : sum_rounds 100 fuel st.heap st.head 0 ≡ some (100 * t % 2 ^ 64) =
      ap (λ p. sum_rounds 100 fuel st.heap p 0) w.head
      ∙ sum_rounds_lem 100 fuel st.heap ns 0 w.chain l (omega arith)
      ∙ ap some start in
    (st, ns, rw summed refl, w, refl, omega arith)

-- The list is a queue: with an allocator that answers unused addresses, from a list that goes through
-- some nodes, every run of the commands ends, each loop within one round more than there are nodes and
-- numbers that the commands add, and prints what a queue of the numbers in the nodes prints.
pub run-run_queue :
    (allocate : Allocate) (fuel : ℕ) (cs : List Command) (st : ListState) (ns : Nodes)
    → IsAllocator allocate
    → IsListOf st ns
    → length ns + all_added cs < fuel
    → (st' : ListState) × (ms : Nodes) × (run allocate fuel cs st
        ≡ some (run_queue cs (values ns), st'))
      × IsListOf st' ms
unfolding run run_queue
run-run_queue allocate fuel [] st ns al w l = (st, ns, refl, w)
run-run_queue allocate fuel (c ∷ cs) st ns al w l =
    let (st', ms, done, w', same, len) = exec-exec_queue allocate fuel c st ns al w (omega arith) in
    let (st'', ks, rest, w'') = run-run_queue allocate fuel cs st' ms al w' (omega (arith, len)) in
    (st'', ks, rw (done, rest, same) refl, w'')
