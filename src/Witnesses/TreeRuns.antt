-- ===== src/Witnesses/TreeRuns.antt =====
-- Reads of a tree with a root of one item and two leaves, and a callback that adds keys.
use snapshot_public.Prelude.{ℕ, zero, suc, ◌+◌, ◌≡◌, refl, true, some, List, [], ◌∷◌, leb, arith}
use snapshot_public.Examples.Stores.{Store, load}
use snapshot_public.Examples.Btree.{Item, BtreeNode, get, btree_map_lookup, Callback, foreach_node}
use snapshot_public.Examples.Btree.Order.{value_of, IsAscending}
use snapshot_public.Examples.Btree.Entries.{slots_entries, entries}
use snapshot_public.Examples.Btree.Reads.{get-value_of}
use snapshot_public.Examples.Btree.Splits.{Halves, split_node-Halves}
use snapshot_public.Examples.Btree.Visits.{keyed, visit_all, foreach_node-visit_all}

abbrev item : ℕ → ℕ → Item
item k v = record { key = k; val = v }

abbrev unused : ℕ → List Item
unused zero = []
unused (suc n) = item 0 0 ∷ unused n

abbrev nulls : ℕ → List ℕ
nulls zero = []
nulls (suc n) = 0 ∷ nulls n

abbrev leaf : Item → BtreeNode
leaf it = record { count = 1; items = it ∷ unused 6; children = nulls 8 }

abbrev heap : Store BtreeNode
heap =
    (64, record { count = 1; items = item 20 2 ∷ unused 6; children = 128 ∷ 192 ∷ nulls 6 })
    ∷ (128, leaf (item 10 1))
    ∷ (192, leaf (item 30 3))
    ∷ []

abbrev all_items : List Item
all_items = item 10 1 ∷ item 20 2 ∷ item 30 3 ∷ []

heap-entries : entries 2 heap 64 ≡ some all_items
unfolding entries slots_entries load
heap-entries = refl

all_items-IsAscending : IsAscending all_items
all_items-IsAscending = ((omega arith, (omega arith, tt)), ((omega arith, tt), (tt, tt)))

get-value_of_example : (get 2 heap 64 30 ≡ some 3) × (btree_map_lookup 2 heap 64 30 ≡ some true)
unfolding value_of
get-value_of_example = get-value_of 2 heap 64 30 all_items heap-entries all_items-IsAscending

-- A leaf with an item of key 0, and a callback that adds keys and stops at 20.
abbrev zeroed : Store BtreeNode
zeroed =
    (
      64,
      record { count = 3; items = item 5 1 ∷ item 0 2 ∷ item 20 3 ∷ unused 4; children = nulls 8 },
    )
    ∷ []

abbrev zeroed_items : List Item
zeroed_items = item 5 1 ∷ item 0 2 ∷ item 20 3 ∷ []

abbrev add_keys : Callback ℕ
add_keys key val s = (s + key, leb 20 key)

foreach_node-visit_all_example : foreach_node 1 zeroed add_keys 64 0 ≡ some (25, true)
unfolding visit_all keyed entries slots_entries load
foreach_node-visit_all_example = foreach_node-visit_all 1 zeroed add_keys 64 zeroed_items 0 refl

-- A full leaf, and a new node in memory that held another one.
abbrev seven_items : List Item
seven_items = item 1 1 ∷ item 2 2 ∷ item 3 3 ∷ item 4 4 ∷ item 5 5 ∷ item 6 6 ∷ item 7 7 ∷ []

abbrev full_leaf : BtreeNode
full_leaf = record { count = 7; items = seven_items; children = nulls 8 }

abbrev old_memory : BtreeNode
old_memory = record {
  count = 2;
  items = item 40 4 ∷ item 50 5 ∷ unused 5;
  children = 64 ∷ 128 ∷ 192 ∷ nulls 5;
}

split_node-Halves_example : Halves (entries 1 heap) full_leaf old_memory seven_items
unfolding entries slots_entries
split_node-Halves_example =
    split_node-Halves (entries 1 heap) full_leaf old_memory seven_items
      (record { items = refl; children = refl }) (record { items = refl; children = refl }) refl
      refl
