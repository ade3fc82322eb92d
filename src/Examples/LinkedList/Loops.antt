-- ===== src/Examples/LinkedList/Loops.antt =====
-- The loops of linkedlist_tx.cc over the nodes of a list.
use snapshot_public.Prelude.{
  ℕ, zero, suc, ◌+◌, ◌*◌, ◌%◌, ◌^◌, ◌<◌, ◌≡◌, refl, ap, ◌∙◌, some, List, [], ◌∷◌, map, length,
  arith,
}
use snapshot_public.Examples.LinkedList.{Heap, count_nodes, print_nodes, sum_round, sum_rounds}
use snapshot_public.Examples.LinkedList.Chains.{Nodes, first, Chain}

abbrev pub values : Nodes → List ℕ
values = map (λ n. n.1)

abbrev pub total : List ℕ → ℕ
total [] = 0
total (x ∷ xs) = x + total xs

-- The loops end with one round more than nodes.
pub count_nodes_lem :
    (fuel : ℕ) (h : Heap) (ns : Nodes) (k : ℕ)
    → Chain h ns
    → length ns < fuel
    → count_nodes fuel h (first ns) k ≡ some (k + length ns)
unfolding count_nodes
count_nodes_lem zero h ns k c l = absurd (omega arith)
count_nodes_lem (suc fuel) h [] k c l = ap some (let e : k ≡ k + 0 = omega arith in e)
count_nodes_lem (suc fuel) h (n ∷ ns) k c l =
    let ih = count_nodes_lem fuel h ns (k + 1) c.2 (omega arith) in
    let e : k + 1 + length ns ≡ k + suc (length ns) = omega arith in ground (arith, c.0, c.1, ih, e)

pub print_nodes_lem :
    (fuel : ℕ) (h : Heap) (ns : Nodes)
    → Chain h ns
    → length ns < fuel
    → print_nodes fuel h (first ns) ≡ some (values ns)
unfolding print_nodes
print_nodes_lem zero h ns c l = absurd (omega arith)
print_nodes_lem (suc fuel) h [] c l = refl
print_nodes_lem (suc fuel) h (n ∷ ns) c l =
    let ih = print_nodes_lem fuel h ns c.2 (omega arith) in ground (arith, c.0, c.1, ih)

sum_round_lem :
    (fuel : ℕ) (h : Heap) (ns : Nodes) (acc : ℕ)
    → Chain h ns
    → length ns < fuel
    → acc < 2 ^ 64
    → sum_round fuel h (first ns) acc ≡ some ((acc + total (values ns)) % 2 ^ 64)
unfolding sum_round
sum_round_lem zero h ns acc c l a = absurd (omega arith)
sum_round_lem (suc fuel) h [] acc c l a =
    ap some (let e : acc ≡ (acc + 0) % 2 ^ 64 = omega arith in e)
sum_round_lem (suc fuel) h (n ∷ ns) acc c l a =
    let ih = sum_round_lem fuel h ns ((acc + n.1) % 2 ^ 64) c.2 (omega arith) (omega arith) in
    let e : ((acc + n.1) % 2 ^ 64 + total (values ns)) % 2 ^ 64
        ≡ (acc + (n.1 + total (values ns))) % 2 ^ 64 =
      omega arith in
    ground (arith, c.0, c.1, ih, e)

add_rounds : (acc t k : ℕ) → ((acc + t) % 2 ^ 64 + k * t) % 2 ^ 64 ≡ (acc + suc k * t) % 2 ^ 64
add_rounds acc t k = omega arith

pub sum_rounds_lem :
    (k fuel : ℕ) (h : Heap) (ns : Nodes) (acc : ℕ)
    → Chain h ns
    → length ns < fuel
    → acc < 2 ^ 64
    → sum_rounds k fuel h (first ns) acc ≡ some ((acc + k * total (values ns)) % 2 ^ 64)
unfolding sum_rounds
sum_rounds_lem zero fuel h ns acc c l a =
    ap some (let e : acc ≡ (acc + 0 * total (values ns)) % 2 ^ 64 = omega arith in e)
sum_rounds_lem (suc k) fuel h ns acc c l a =
    let t = total (values ns) in
    let round = sum_round_lem fuel h ns acc c l a in
    let ih = sum_rounds_lem k fuel h ns ((acc + t) % 2 ^ 64) c l (omega arith) in
    rw round (ih ∙ ap some (add_rounds acc t k))
