-- ===== src/Examples/LinkedList.antt =====
-- linkedlist_tx.cc and list.hh: a queue of numbers in a list of nodes that are allocated from a
-- mapped file. The allocator is a parameter; `msync` changes no memory.
pub mod Chains
pub mod Loops
pub mod Moves
pub mod Queue
use snapshot_public.Prelude.{
  ℕ, zero, suc, ◌+◌, ◌%◌, ◌^◌, Bool, true, false, not, Option, none, some, List, [], ◌∷◌, ◌==◌,
  if◌then◌else◌, ◌>>=◌,
}
use snapshot_public.Examples.Stores.{Store, load, release}

-- `node_t`
pub record Node : Type 0 where
  pub next : ℕ
  pub value : ℕ

abbrev pub Heap : Type 0
Heap = Store Node

-- A `linkedlist_t` in its heap.
pub record ListState : Type 0 where
  pub heap : Heap
  pub head : ℕ
  pub tail : ℕ

-- `res->allocate(sizeof(node_t))`; `none` is an exception.
abbrev pub Allocate : Type 0
Allocate = Heap → Option ℕ

-- The two branches of `append_node`, with the new node.
unfoldable pub append_first : ℕ → ℕ → ListState → ListState
append_first a val st = record {
  heap = (a, record { next = 0; value = val }) ∷ st.heap;
  head = a;
  tail = a;
}

unfoldable pub append_behind : ℕ → ℕ → ListState → Option ListState
append_behind a val st = do
  last ← load st.heap st.tail
  some (record st {
    heap =
        (a, record { next = 0; value = val })
        ∷ (st.tail, record { next = a; value = last.value })
        ∷ st.heap;
    tail = a;
  })

-- `append_node`, without an exit in its middle
unfoldable pub append_node : Allocate → ℕ → ListState → Option ListState
append_node allocate val st = do
  a ← allocate st.heap
  if st.head == 0 then some (append_first a val st) else append_behind a val st

-- `pop_head`
unfoldable pub pop_head : ListState → Option ListState
pop_head st =
    let only = some (record { heap = release st.heap st.head; head = 0; tail = 0 }) in
    let more =
      (load st.heap st.head >>= λ old.
      some (record st { heap = release st.heap st.head; head = old.next })) in
    if st.head == 0 then some st else if st.head == st.tail then only else more

-- `append_head`
unfoldable pub append_head : Allocate → ℕ → ListState → Option ListState
append_head allocate val st = do
  a ← allocate st.heap
  some (record {
    heap = (a, record { next = st.head; value = val }) ∷ st.heap;
    head = a;
    tail = if st.tail == 0 then a else st.tail;
  })

-- `bulk_append_nodes`: the loop over so many numbers, from one on.
unfoldable pub bulk_append_nodes : Allocate → (cnt i : ℕ) → ListState → Option ListState
bulk_append_nodes allocate zero i st = some st
bulk_append_nodes allocate (suc cnt) i st =
    append_node allocate i st >>= λ st'. bulk_append_nodes allocate cnt (i + 1) st'

-- `bulk_delete_nodes`
unfoldable pub bulk_delete_nodes : ℕ → ListState → Option ListState
bulk_delete_nodes zero st = some st
bulk_delete_nodes (suc cnt) st = pop_head st >>= λ st'. bulk_delete_nodes cnt st'

-- The loop of `count_nodes` from a node on; `none` is a loop that has not ended within the rounds
-- of the first argument, or that reads a node that is not allocated.
unfoldable pub count_nodes : ℕ → Heap → (cur_node count : ℕ) → Option ℕ
count_nodes zero h cur_node count = none
count_nodes (suc fuel) h cur_node count =
    let rest = (load h cur_node >>= λ n. count_nodes fuel h n.next (count + 1)) in
    if cur_node == 0 then some count else rest

-- The loop of `print_nodes`: what it prints.
unfoldable pub print_nodes : ℕ → Heap → ℕ → Option (List ℕ)
print_nodes zero h cur_node = none
print_nodes (suc fuel) h cur_node =
    let rest =
      (load h cur_node >>= λ n. print_nodes fuel h n.next >>= λ out. some (n.value ∷ out)) in
    if cur_node == 0 then some [] else rest

-- The loops of `sum_nodes`: over the nodes, and its rounds.
unfoldable pub sum_round : ℕ → Heap → (cur_node result : ℕ) → Option ℕ
sum_round zero h cur_node result = none
sum_round (suc fuel) h cur_node result =
    let rest = (load h cur_node >>= λ n. sum_round fuel h n.next ((result + n.value) % 2 ^ 64)) in
    if cur_node == 0 then some result else rest

unfoldable pub sum_rounds : (rounds fuel : ℕ) → Heap → (head result : ℕ) → Option ℕ
sum_rounds zero fuel h head result = some result
sum_rounds (suc rounds) fuel h head result = do
  result' ← sum_round fuel h head result
  sum_rounds rounds fuel h head result'

-- `sum_nodes`
unfoldable pub sum_nodes : ℕ → ListState → Option ℕ
sum_nodes fuel st = sum_rounds 100 fuel st.heap st.head 0

-- The commands 'i', 'A', 'R', 'r', 'c', 'p' and 's' of `main`, with their numbers.
pub data Command : Type 0 where
  insert insert_many remove_many : ℕ → Command
  remove count print sum : Command

-- The switch of `main`: what a command prints, and the list.
unfoldable pub exec : Allocate → ℕ → Command → ListState → Option (List ℕ × ListState)
exec allocate fuel (insert val) st = append_node allocate val st >>= λ st'. some ([], st')
exec allocate fuel (insert_many cnt) st =
    bulk_append_nodes allocate cnt 0 st >>= λ st'. some ([], st')
exec allocate fuel (remove_many cnt) st = bulk_delete_nodes cnt st >>= λ st'. some ([], st')
exec allocate fuel remove st = pop_head st >>= λ st'. some ([], st')
exec allocate fuel count st = count_nodes fuel st.heap st.head 0 >>= λ n. some (n ∷ [], st)
exec allocate fuel print st = print_nodes fuel st.heap st.head >>= λ out. some (out, st)
exec allocate fuel sum st = sum_nodes fuel st >>= λ n. some (n ∷ [], st)

unfoldable pub run : Allocate → ℕ → List Command → ListState → Option (List (List ℕ) × ListState)
run allocate fuel [] st = some ([], st)
run allocate fuel (c ∷ cs) st = do
  (out, st') ← exec allocate fuel c st
  (outs, st'') ← run allocate fuel cs st'
  some (out ∷ outs, st'')
