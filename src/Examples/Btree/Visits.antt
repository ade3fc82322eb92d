-- ===== src/Examples/Btree/Visits.antt =====
-- `foreach` of btree.cc against the items of the tree in order.
use snapshot_public.Prelude.{
  ℕ, zero, suc, ◌≡◌, ◌∙◌, ap, refl, sym, subst, Bool, true, false, Option, some, inl, inr, List, [],
  ◌∷◌, ◌++◌, ◌==◌, if◌then◌else◌, take, arith, Bool-cases,
}
use snapshot_public.Examples.Stores.{Store}
use snapshot_public.Examples.Btree.{
  Item, BtreeNode, Callback, call_back, foreach_slots, foreach_node,
}
use snapshot_public.Examples.Btree.Entries.{
  slots_entries, entries, entries_split, entries_zero, entries_node, entries_at_null,
}

-- The items whose key is not 0.
unfoldable pub keyed : List Item → List Item
keyed [] = []
keyed (it ∷ es) = let rest = keyed es in if it.key == 0 then rest else it ∷ rest

module _ {ℓ} {S : Type ℓ} where
  -- The callback for each item in order, up to the first at which it stops.
  unfoldable pub visit_all : Callback S → List Item → S → S × Bool
  visit_all cb [] s = (s, false)
  visit_all cb (it ∷ es) s =
      let (s', stop) = cb it.key it.val s in
      let rest = visit_all cb es s' in if stop then (s', true) else rest

  -- The same with the call of `foreach_node` for each item.
  visit_entries : Callback S → List Item → S → S × Bool
  visit_entries cb [] s = (s, false)
  visit_entries cb (it ∷ es) s =
      let (s', stop) = call_back cb it s in
      let rest = visit_entries cb es s' in if stop then (s', true) else rest

  visit_entries-keyed :
      (cb : Callback S) (es : List Item) (s : S) → visit_entries cb es s ≡ visit_all cb (keyed es) s
  unfolding visit_entries visit_all call_back keyed
  visit_entries-keyed cb [] s = refl
  visit_entries-keyed cb (it ∷ es) s = elim (Bool-cases (it.key == 0)) [
    | inl z ↦ rw z (visit_entries-keyed cb es s)
    | inr nz ↦ elim (Bool-cases (cb it.key it.val s).1) [
      | inl stop ↦ rw (nz, stop) refl
      | inr go ↦ rw (nz, go) (visit_entries-keyed cb es (cb it.key it.val s).0)
    ]
  ]

  visit_entries-append :
      (cb : Callback S) (xs ys : List Item) (s : S)
      → visit_entries cb (xs ++ ys) s ≡ (
          if (visit_entries cb xs s).1
          then ((visit_entries cb xs s).0, true)
          else visit_entries cb ys (visit_entries cb xs s).0)
  unfolding visit_entries
  visit_entries-append cb [] ys s = refl
  visit_entries-append cb (x ∷ xs) ys s = elim (Bool-cases (call_back cb x s).1) [
    | inl e ↦ rw e refl
    | inr e ↦ rw e (visit_entries-append cb xs ys (call_back cb x s).0)
  ]

  visit_first :
      (cb : Callback S) (it : Item) (ys : List Item) (s : S) (behind : Option (S × Bool))
      → behind ≡ some (visit_entries cb ys (call_back cb it s).0)
      → (if (call_back cb it s).1 then some ((call_back cb it s).0, true) else behind)
        ≡ some (visit_entries cb (it ∷ ys) s)
  unfolding visit_entries
  visit_first cb it ys s behind e = elim (Bool-cases (call_back cb it s).1) [
    | inl stop ↦ rw stop refl
    | inr go ↦ rw go e
  ]

  foreach_slots_lem :
      (cb : Callback S) (visit : ℕ → S → Option (S × Bool)) (child : ℕ → Option (List Item))
      (items : List Item) (cs : List ℕ) (es : List Item) (s : S)
      → ((c : ℕ) (xs : List Item) (s : S)
          → child c ≡ some xs
          → visit c s ≡ some (visit_entries cb xs s))
      → slots_entries child items cs ≡ some es
      → foreach_slots cb visit items cs s ≡ some (visit_entries cb es s)
  unfolding foreach_slots slots_entries
  foreach_slots_lem cb visit child items [] es s agree e = absurd (cc e)
  foreach_slots_lem cb visit child [] (c ∷ cs) es s agree e = agree c es s e
  foreach_slots_lem cb visit child (it ∷ items) (c ∷ cs) es s agree e =
      let (xs, ys, got, more, parts) = entries_split child it items c cs es e in
      let r = visit_entries cb xs s in
      let rest = foreach_slots_lem cb visit child items cs ys (call_back cb it r.0).0 agree more in
      rw (agree c xs s got, sym parts, visit_entries-append cb xs (it ∷ ys) s)
        (elim (Bool-cases r.1) [
          | inl stop ↦ rw stop refl
          | inr go ↦ rw go (visit_first cb it ys r.0 _ rest)
        ])

  foreach_node-visit_entries :
      (fuel : ℕ) (h : Store BtreeNode) (cb : Callback S) (node : ℕ) (es : List Item) (s : S)
      → entries fuel h node ≡ some es
      → foreach_node fuel h cb node s ≡ some (visit_entries cb es s)
  unfolding foreach_node visit_entries
  foreach_node-visit_entries zero h cb node es s e = elim (Bool-cases (node == 0)) [
    | inl z ↦
        let null : node ≡ 0 = ground arith in
        let empty = entries_at_null zero h es (subst (λ p. entries zero h p ≡ some es) null e) in
        rw (z, sym empty) refl
    | inr nz ↦ absurd (cc (e, entries_zero h node (ground arith)))
  ]
  foreach_node-visit_entries (suc fuel) h cb node es s e = elim (Bool-cases (node == 0)) [
    | inl z ↦
        let null : node ≡ 0 = ground arith in
        let empty =
          entries_at_null (suc fuel) h es (subst (λ p. entries (suc fuel) h p ≡ some es) null e) in
        rw (z, sym empty) refl
    | inr nz ↦
        let (n, got, slots) = entries_node fuel h node es (ground arith) e in
        rw (nz, got)
          (foreach_slots_lem cb (foreach_node fuel h cb) (entries fuel h) (take n.count n.items)
            n.children es s (λ c xs s' e'. foreach_node-visit_entries fuel h cb c xs s' e') slots)
  ]

  -- `foreach` visits the items in order: where the tree below a node has these items and is no
  -- deeper than the fuel, it returns what the callback makes, one after the other, of those whose
  -- key is not 0, up to the first at which it stops.
  pub foreach_node-visit_all :
      (fuel : ℕ) (h : Store BtreeNode) (cb : Callback S) (node : ℕ) (es : List Item) (s : S)
      → entries fuel h node ≡ some es
      → foreach_node fuel h cb node s ≡ some (visit_all cb (keyed es) s)
  foreach_node-visit_all fuel h cb node es s e =
      foreach_node-visit_entries fuel h cb node es s e ∙ ap some (visit_entries-keyed cb es s)
