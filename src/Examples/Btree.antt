-- ===== src/Examples/Btree.antt =====
-- btree.cc and btree.hh: a map of numbers in a tree of nodes with up to seven items. The operations
-- that read the tree, and the split of a node: the one that is full, and the one that was allocated,
-- with whatever its memory held. A node holds its two arrays as lists, of BTREE_ORDER - 1 items and of
-- BTREE_ORDER addresses.
pub mod Order
pub mod Entries
pub mod Reads
pub mod Visits
pub mod Splits
use snapshot_public.Prelude.{
  ℕ, zero, suc, ◌+◌, ◌-◌, get_elem?, set, Bool, true, false, not, ◌&&◌, ◌||◌, Option, none, some,
  List, [], ◌∷◌, ltb, ◌==◌, if◌then◌else◌, take, ◌>>=◌,
}
use snapshot_public.Examples.Stores.{Store, load}

-- `btree_node_item_t`
pub record Item : Type 0 where
  pub key : ℕ
  pub val : ℕ

-- `btree_node_t`
pub record BtreeNode : Type 0 where
  pub count : ℕ
  pub items : List Item
  pub children : List ℕ

-- `btree_node_t::init`
unfoldable pub init_node : BtreeNode → BtreeNode
init_node n = record n { count = 0 }

-- `btree_node_t::clear`
unfoldable pub clear : BtreeNode → ℕ → BtreeNode
clear n pos = record n { items = set n.items pos (record { key = 0; val = 0 }) }

-- The item part of a round of the loop of `split_node`, which the last round goes without.
unfoldable pub move_item : ℕ → BtreeNode → BtreeNode → Option (BtreeNode × BtreeNode)
move_item i node right =
    let moved =
      (get_elem? node.items i >>= λ it. some (
        clear node i,
        record right { items = set right.items right.count it; count = right.count + 1 },
      )) in
    if i == 7 then some (node, right) else moved

-- The loop of `split_node`, so many rounds from one on; `none` is a read behind the arrays.
unfoldable pub move_right :
    (rounds i : ℕ) → (node right : BtreeNode) → Option (BtreeNode × BtreeNode)
move_right zero i node right = some (node, right)
move_right (suc rounds) i node right = do
  (node', right') ← move_item i node right
  c ← get_elem? node'.children i
  move_right rounds (i + 1) (record node' { children = set node'.children i 0 })
      (record right' { children = set right'.children (i - 4) c })

-- `split_node`: the median, the node and the new node.
unfoldable pub split_node : (node right : BtreeNode) → Option (Item × BtreeNode × BtreeNode)
split_node node right = do
  item ← get_elem? node.items 3
  (node', right') ← move_right 4 4 (clear node 3) (init_node right)
  some (item, record node' { count = 3 }, right')

-- `is_empty`
unfoldable pub is_empty : Store BtreeNode → (root : ℕ) → Option Bool
is_empty h root =
    let looked = (load h root >>= λ n. some (n.count == 0)) in
    if root == 0 then some true else looked

-- How the loops of `get_in_node` and `lookup_in_node` end: at an item, at a child, behind the last
-- slot, or with a read behind the arrays.
pub data Slot : Type 0 where
  contained : ℕ → Slot
  below : ℕ → Slot
  absent outside : Slot

-- The loop over the slots from one on, with the items in use: NODE_CONTAINS_ITEM and
-- NODE_CHILD_CAN_CONTAIN_ITEM.
unfoldable pub find_slot : List Item → (children : List ℕ) → (key : ℕ) → Slot
find_slot items [] key = outside
find_slot [] (c ∷ cs) key = if c == 0 then absent else below c
find_slot (it ∷ items) (c ∷ cs) key =
    let rest = find_slot items cs key in
    if it.key == key
    then contained it.val
    else if ltb key it.key && not (c == 0)
    then below c
    else rest

abbrev pub slot_of : BtreeNode → ℕ → Slot
slot_of n key = find_slot (take n.count n.items) n.children key

-- `get_in_node`; `none` is a read of no node or behind an array, or a tree that is deeper than the
-- fuel.
unfoldable pub get_in_node : ℕ → Store BtreeNode → (node key : ℕ) → Option ℕ
get_in_node zero h node key = none
get_in_node (suc fuel) h node key = do
  n ← load h node
  elim (slot_of n key) [
    | contained val ↦ some val
    | below c ↦ get_in_node fuel h c key
    | absent ↦ some 0
    | outside ↦ none
  ]

-- `get`
unfoldable pub get : ℕ → Store BtreeNode → (root key : ℕ) → Option ℕ
get fuel h root key = let found = get_in_node fuel h root key in if root == 0 then some 0 else found

-- `lookup_in_node`
unfoldable pub lookup_in_node : ℕ → Store BtreeNode → (node key : ℕ) → Option Bool
lookup_in_node zero h node key = none
lookup_in_node (suc fuel) h node key = do
  n ← load h node
  elim (slot_of n key) [
    | contained val ↦ some true
    | below c ↦ lookup_in_node fuel h c key
    | absent ↦ some false
    | outside ↦ none
  ]

-- `btree_map_lookup`
unfoldable pub btree_map_lookup : ℕ → Store BtreeNode → (root key : ℕ) → Option Bool
btree_map_lookup fuel h root key =
    let found = lookup_in_node fuel h root key in if root == 0 then some false else found

-- A callback on a state of its own; `true` is a result other than 0.
abbrev pub Callback {ℓ} : Type ℓ → Type ℓ
Callback S = (key val : ℕ) → S → S × Bool

module _ {ℓ} {S : Type ℓ} where
  -- The call of the callback for an item.
  unfoldable pub call_back : Callback S → Item → S → S × Bool
  call_back cb it s = if it.key == 0 then (s, false) else cb it.key it.val s

  -- The loop of `foreach_node`, with what it does to a child.
  unfoldable pub foreach_slots :
      Callback S
      → (ℕ → S → Option (S × Bool))
      → List Item
      → (children : List ℕ) → S
      → Option (S × Bool)
  foreach_slots cb visit items [] s = none
  foreach_slots cb visit [] (c ∷ cs) s = visit c s
  foreach_slots cb visit (it ∷ items) (c ∷ cs) s = visit c s >>= λ visited.
      let (s', stop) = visited in
      let (s'', stop') = call_back cb it s' in
      let rest = foreach_slots cb visit items cs s'' in
      if stop then some (s', true) else if stop' then some (s'', true) else rest

  -- `foreach_node`, and `foreach` at the root
  unfoldable pub foreach_node :
      ℕ → Store BtreeNode → Callback S → (node : ℕ) → S → Option (S × Bool)
  foreach_node zero h cb node s = if node == 0 then some (s, false) else none
  foreach_node (suc fuel) h cb node s =
      let visited =
        (load h node >>= λ n.
        foreach_slots cb (foreach_node fuel h cb) (take n.count n.items) n.children s) in
      if node == 0 then some (s, false) else visited
