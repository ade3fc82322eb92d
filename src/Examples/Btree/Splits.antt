-- ===== src/Examples/Btree/Splits.antt =====
-- The items of the two halves that `split_node` of btree.cc makes of a node.
use snapshot_public.Prelude.{
  ℕ, ◌≡◌, refl, ap, sym, subst, ◌∙◌, Option, some, List, [], ◌∷◌, ◌++◌, append_assoc, length, take,
  arith,
}
use snapshot_public.Examples.Btree.{
  Item, BtreeNode, init_node, clear, move_item, move_right, split_node,
}
use snapshot_public.Examples.Btree.Entries.{slots_entries, entries_split}

abbrev pub node_entries : (ℕ → Option (List Item)) → BtreeNode → Option (List Item)
node_entries child n = slots_entries child (take n.count n.items) n.children

-- The arrays of a node have their sizes.
pub record IsNode (n : BtreeNode) : Type 0 where
  pub items : length n.items ≡ 7
  pub children : length n.children ≡ 8

-- The elements of an array of items and of one of addresses.
seven {ℓ} :
    {A : Type ℓ} (xs : List A)
    → length xs ≡ 7
    → (a0 a1 a2 a3 a4 a5 a6 : A) × (xs ≡ a0 ∷ a1 ∷ a2 ∷ a3 ∷ a4 ∷ a5 ∷ a6 ∷ [])
seven [] e = absurd (omega arith)
seven (a0 ∷ []) e = absurd (omega arith)
seven (a0 ∷ a1 ∷ []) e = absurd (omega arith)
seven (a0 ∷ a1 ∷ a2 ∷ []) e = absurd (omega arith)
seven (a0 ∷ a1 ∷ a2 ∷ a3 ∷ []) e = absurd (omega arith)
seven (a0 ∷ a1 ∷ a2 ∷ a3 ∷ a4 ∷ []) e = absurd (omega arith)
seven (a0 ∷ a1 ∷ a2 ∷ a3 ∷ a4 ∷ a5 ∷ []) e = absurd (omega arith)
seven (a0 ∷ a1 ∷ a2 ∷ a3 ∷ a4 ∷ a5 ∷ a6 ∷ []) e = (a0, a1, a2, a3, a4, a5, a6, refl)
seven (a0 ∷ a1 ∷ a2 ∷ a3 ∷ a4 ∷ a5 ∷ a6 ∷ a7 ∷ xs) e = absurd (omega arith)

eight {ℓ} :
    {A : Type ℓ} (xs : List A)
    → length xs ≡ 8
    → (a0 a1 a2 a3 a4 a5 a6 a7 : A) × (xs ≡ a0 ∷ a1 ∷ a2 ∷ a3 ∷ a4 ∷ a5 ∷ a6 ∷ a7 ∷ [])
eight [] e = absurd (omega arith)
eight (a0 ∷ xs) e =
    let (a1, a2, a3, a4, a5, a6, a7, same) = seven xs (omega arith) in
    (a0, a1, a2, a3, a4, a5, a6, a7, ap (λ t. a0 ∷ t) same)

node_of :
    (n : BtreeNode) (count : ℕ) (items : List Item) (children : List ℕ)
    → n.count ≡ count
    → n.items ≡ items
    → n.children ≡ children
    → n ≡ record { count = count; items = items; children = children }
node_of n count items children e f g = rw (sym e, sym f, sym g) refl

module _ (child : ℕ → Option (List Item)) where
  -- Children behind the last slot do not matter.
  slots_entries-append :
      (items : List Item) (cs rest : List ℕ) (es : List Item)
      → slots_entries child items cs ≡ some es
      → slots_entries child items (cs ++ rest) ≡ some es
  unfolding slots_entries
  slots_entries-append items [] rest es e = absurd (cc e)
  slots_entries-append [] (c ∷ cs) rest es e = e
  slots_entries-append (it ∷ items) (c ∷ cs) rest es e =
      let (xs, ys, got, more, parts) = entries_split child it items c cs es e in
      rw (got, slots_entries-append items cs rest ys more) (ap some parts)

  -- The slots before an item, and those behind it.
  slots_entries-split :
      (items : List Item) (it : Item) (items' : List Item) (cs : List ℕ) (c : ℕ) (cs' : List ℕ)
      (es : List Item)
      → length cs ≡ length items
      → slots_entries child (items ++ it ∷ items') (cs ++ c ∷ cs') ≡ some es
      → (xs : List Item) × (ys : List Item) × (slots_entries child items (cs ++ c ∷ []) ≡ some xs)
        × (slots_entries child items' cs' ≡ some ys)
        × (xs ++ it ∷ ys ≡ es)
  unfolding slots_entries
  slots_entries-split [] it items' [] c cs' es l e = entries_split child it items' c cs' es e
  slots_entries-split [] it items' (d ∷ cs) c cs' es l e = absurd (omega arith)
  slots_entries-split (i ∷ items) it items' [] c cs' es l e = absurd (omega arith)
  slots_entries-split (i ∷ items) it items' (d ∷ cs) c cs' es l e =
      let (xs, zs, got, more, parts) =
        entries_split child i (items ++ it ∷ items') d (cs ++ c ∷ cs') es e in
      let (ys, ws, left, right, parts') =
        slots_entries-split items it items' cs c cs' zs (omega arith) more in
      (
        xs ++ i ∷ ys,
        ws,
        rw (got, left) refl,
        right,
        append_assoc xs (i ∷ ys) (it ∷ ws) ∙ ap (λ t. xs ++ i ∷ t) parts' ∙ parts,
      )

  -- What `split_node` makes of two nodes: it answers an item and two nodes with the items before it
  -- and behind it.
  pub Halves : (node right : BtreeNode) → List Item → Type 0
  Halves node right es =
      (item : Item) × (node' : BtreeNode) × (right' : BtreeNode) × (xs : List Item) × (ys : List
        Item)
      × (split_node node right ≡ some (item, node', right'))
      × (node_entries child node' ≡ some xs)
      × (node_entries child right' ≡ some ys)
      × (xs ++ item ∷ ys ≡ es)
      × (node'.count ≡ 3)
      × (right'.count ≡ 3)

  split_lists :
      (a0 a1 a2 a3 a4 a5 a6 : Item) (c0 c1 c2 c3 c4 c5 c6 c7 : ℕ) (r0 r1 r2 r3 r4 r5 r6 : Item)
      (s0 s1 s2 s3 s4 s5 s6 s7 : ℕ) (count : ℕ) (es : List Item)
      → slots_entries child
          (a0 ∷ a1 ∷ a2 ∷ a3 ∷ a4 ∷ a5 ∷ a6 ∷ [])
          (c0 ∷ c1 ∷ c2 ∷ c3 ∷ c4 ∷ c5 ∷ c6 ∷ c7 ∷ [])
        ≡ some es
      → Halves
          (record {
            count = 7;
            items = a0 ∷ a1 ∷ a2 ∷ a3 ∷ a4 ∷ a5 ∷ a6 ∷ [];
            children = c0 ∷ c1 ∷ c2 ∷ c3 ∷ c4 ∷ c5 ∷ c6 ∷ c7 ∷ [];
          })
          (record {
            count = count;
            items = r0 ∷ r1 ∷ r2 ∷ r3 ∷ r4 ∷ r5 ∷ r6 ∷ [];
            children = s0 ∷ s1 ∷ s2 ∷ s3 ∷ s4 ∷ s5 ∷ s6 ∷ s7 ∷ [];
          })
          es
  unfolding Halves split_node move_right move_item clear init_node
  split_lists a0 a1 a2 a3 a4 a5 a6 c0 c1 c2 c3 c4 c5 c6 c7 r0 r1 r2 r3 r4 r5 r6 s0 s1 s2 s3 s4 s5 s6
        s7 count es e =
      let cleared : Item = record { key = 0; val = 0 } in
      let (xs, ys, left, behind, parts) =
        slots_entries-split (a0 ∷ a1 ∷ a2 ∷ []) a3 (a4 ∷ a5 ∷ a6 ∷ []) (c0 ∷ c1 ∷ c2 ∷ []) c3
          (c4 ∷ c5 ∷ c6 ∷ c7 ∷ []) es refl e in
      (
        a3,
        record {
          count = 3;
          items = a0 ∷ a1 ∷ a2 ∷ cleared ∷ cleared ∷ cleared ∷ cleared ∷ [];
          children = c0 ∷ c1 ∷ c2 ∷ c3 ∷ 0 ∷ 0 ∷ 0 ∷ 0 ∷ [];
        },
        record {
          count = 3;
          items = a4 ∷ a5 ∷ a6 ∷ r3 ∷ r4 ∷ r5 ∷ r6 ∷ [];
          children = c4 ∷ c5 ∷ c6 ∷ c7 ∷ s4 ∷ s5 ∷ s6 ∷ s7 ∷ [];
        },
        xs,
        ys,
        refl,
        slots_entries-append (a0 ∷ a1 ∷ a2 ∷ []) (c0 ∷ c1 ∷ c2 ∷ c3 ∷ []) (0 ∷ 0 ∷ 0 ∷ 0 ∷ []) xs
            left,
        slots_entries-append (a4 ∷ a5 ∷ a6 ∷ []) (c4 ∷ c5 ∷ c6 ∷ c7 ∷ []) (s4 ∷ s5 ∷ s6 ∷ s7 ∷ [])
            ys behind,
        parts,
        refl,
        refl,
      )

  -- `split_node` keeps the items: from a full node, whatever the memory of the new node held, it
  -- returns, and the items below the node, the median and the items below the new node are those
  -- that were below the full node, in order; both nodes have three items.
  pub split_node-Halves :
      (node right : BtreeNode) (es : List Item)
      → IsNode node
      → IsNode right
      → node.count ≡ 7
      → node_entries child node ≡ some es
      → Halves node right es
  split_node-Halves node right es w w' full e =
      let (a0, a1, a2, a3, a4, a5, a6, ai) = seven node.items w.items in
      let (c0, c1, c2, c3, c4, c5, c6, c7, ci) = eight node.children w.children in
      let (r0, r1, r2, r3, r4, r5, r6, ri) = seven right.items w'.items in
      let (s0, s1, s2, s3, s4, s5, s6, s7, si) = eight right.children w'.children in
      let node_is =
        node_of node 7 (a0 ∷ a1 ∷ a2 ∷ a3 ∷ a4 ∷ a5 ∷ a6 ∷ [])
          (c0 ∷ c1 ∷ c2 ∷ c3 ∷ c4 ∷ c5 ∷ c6 ∷ c7 ∷ []) full ai ci in
      let right_is =
        node_of right right.count (r0 ∷ r1 ∷ r2 ∷ r3 ∷ r4 ∷ r5 ∷ r6 ∷ [])
          (s0 ∷ s1 ∷ s2 ∷ s3 ∷ s4 ∷ s5 ∷ s6 ∷ s7 ∷ []) refl ri si in
      let right' : BtreeNode = record {
        count = right.count;
        items = r0 ∷ r1 ∷ r2 ∷ r3 ∷ r4 ∷ r5 ∷ r6 ∷ [];
        children = s0 ∷ s1 ∷ s2 ∷ s3 ∷ s4 ∷ s5 ∷ s6 ∷ s7 ∷ [];
      } in
      let e' = subst (λ n. node_entries child n ≡ some es) node_is e in
      subst (λ r. Halves node r es) (sym right_is)
        (subst (λ n. Halves n right' es) (sym node_is)
          (split_lists a0 a1 a2 a3 a4 a5 a6 c0 c1 c2 c3 c4 c5 c6 c7 r0 r1 r2 r3 r4 r5 r6 s0 s1 s2 s3
            s4 s5 s6 s7 right.count es e'))
