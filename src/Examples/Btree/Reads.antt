-- ===== src/Examples/Btree/Reads.antt =====
-- `get` and `btree_map_lookup` of btree.cc against the items of the tree in order.
use snapshot_public.Prelude.{
  ℕ, zero, suc, ◌≡◌, ◌≢◌, refl, sym, subst, Bool, true, false, Option, none, some, inl, inr, List,
  [], ◌==◌, arith, Bool-cases,
}
use snapshot_public.Examples.Stores.{Store}
use snapshot_public.Examples.Btree.{
  Item, BtreeNode, Slot, contained, below, absent, outside, slot_of, get_in_node, get,
  lookup_in_node, btree_map_lookup,
}
use snapshot_public.Examples.Btree.Order.{value_of, IsAscending}
use snapshot_public.Examples.Btree.Entries.{
  entries, Answers, entries_null, entries_zero, entries_node, slot-Answers,
}

abbrev pub or_zero : Option ℕ → ℕ
or_zero none = 0
or_zero (some v) = v

abbrev pub is_present : Option ℕ → Bool
is_present none = false
is_present (some v) = true

get_slot :
    (fuel : ℕ) (h : Store BtreeNode) (key : ℕ) (es : List Item) (slot : Slot)
    → ((c : ℕ) (xs : List Item)
        → c ≢ 0
        → entries fuel h c ≡ some xs
        → IsAscending xs
        → get_in_node fuel h c key ≡ some (or_zero (value_of xs key)))
    → Answers (entries fuel h) key es slot
    → elim slot [
      | contained val ↦ some val
      | below c ↦ get_in_node fuel h c key
      | absent ↦ some 0
      | outside ↦ none
    ]
      ≡ some (or_zero (value_of es key))
unfolding Answers
get_slot fuel h key es (contained v) ih a = rw a refl
get_slot fuel h key es (below c) ih (nz, xs, got, asc, same) = rw same (ih c xs nz got asc)
get_slot fuel h key es absent ih a = rw a refl
get_slot fuel h key es outside ih a = absurd a

get_in_node_lem :
    (fuel : ℕ) (h : Store BtreeNode) (key p : ℕ) (es : List Item)
    → p ≢ 0
    → entries fuel h p ≡ some es
    → IsAscending es
    → get_in_node fuel h p key ≡ some (or_zero (value_of es key))
unfolding get_in_node
get_in_node_lem zero h key p es nz e asc = absurd (cc (e, entries_zero h p nz))
get_in_node_lem (suc fuel) h key p es nz e asc =
    let (n, got, slots) = entries_node fuel h p es nz e in
    rw got (
      get_slot fuel h key es (slot_of n key)
        (λ c xs nz' e' asc'. get_in_node_lem fuel h key c xs nz' e' asc')
        (slot-Answers fuel h n es key slots asc))

lookup_slot :
    (fuel : ℕ) (h : Store BtreeNode) (key : ℕ) (es : List Item) (slot : Slot)
    → ((c : ℕ) (xs : List Item)
        → c ≢ 0
        → entries fuel h c ≡ some xs
        → IsAscending xs
        → lookup_in_node fuel h c key ≡ some (is_present (value_of xs key)))
    → Answers (entries fuel h) key es slot
    → elim slot [
      | contained val ↦ some true
      | below c ↦ lookup_in_node fuel h c key
      | absent ↦ some false
      | outside ↦ none
    ]
      ≡ some (is_present (value_of es key))
unfolding Answers
lookup_slot fuel h key es (contained v) ih a = rw a refl
lookup_slot fuel h key es (below c) ih (nz, xs, got, asc, same) = rw same (ih c xs nz got asc)
lookup_slot fuel h key es absent ih a = rw a refl
lookup_slot fuel h key es outside ih a = absurd a

lookup_in_node_lem :
    (fuel : ℕ) (h : Store BtreeNode) (key p : ℕ) (es : List Item)
    → p ≢ 0
    → entries fuel h p ≡ some es
    → IsAscending es
    → lookup_in_node fuel h p key ≡ some (is_present (value_of es key))
unfolding lookup_in_node
lookup_in_node_lem zero h key p es nz e asc = absurd (cc (e, entries_zero h p nz))
lookup_in_node_lem (suc fuel) h key p es nz e asc =
    let (n, got, slots) = entries_node fuel h p es nz e in
    rw got (
      lookup_slot fuel h key es (slot_of n key)
        (λ c xs nz' e' asc'. lookup_in_node_lem fuel h key c xs nz' e' asc')
        (slot-Answers fuel h n es key slots asc))

-- `get` and `btree_map_lookup` find what is in the tree: where the tree has these items, their keys
-- ascend, and it is no deeper than the fuel, `get` returns the value of the item with the key,
-- or 0 where there is none, and `btree_map_lookup` tells whether there is one.
pub get-value_of :
    (fuel : ℕ) (h : Store BtreeNode) (root key : ℕ) (es : List Item)
    → entries fuel h root ≡ some es
    → IsAscending es
    → (get fuel h root key ≡ some (or_zero (value_of es key)))
      × (btree_map_lookup fuel h root key ≡ some (is_present (value_of es key)))
unfolding get btree_map_lookup value_of
get-value_of fuel h root key es e asc = elim (Bool-cases (root == 0)) [
  | inl z ↦
      let null : root ≡ 0 = ground arith in
      let found = entries_null fuel h in
      let empty : [] ≡ es = cc (found, subst (λ p. entries fuel h p ≡ some es) null e) in
      rw (z, sym empty) (refl, refl)
  | inr nz ↦
      let some_root : root ≢ 0 = ground arith in
      rw nz (
        get_in_node_lem fuel h key root es some_root e asc,
        lookup_in_node_lem fuel h key root es some_root e asc,
      )
]
