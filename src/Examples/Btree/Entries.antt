-- ===== src/Examples/Btree/Entries.antt =====
-- The items of a tree of btree.cc in order, and what one of its slots says of a key.
use snapshot_public.Prelude.{
  ℕ, zero, suc, ◌<◌, ◌≡◌, ◌≢◌, refl, sym, subst, ◌∙◌, Option, none, some, inl, inr, List, [], ◌∷◌,
  ◌++◌, ltb, ◌==◌, if◌then◌else◌, take, arith, Bool-cases, Option-cases, ◌>>=◌,
}
use snapshot_public.Examples.Stores.{Store, load}
use snapshot_public.Examples.Btree.{
  Item, BtreeNode, Slot, contained, below, absent, outside, find_slot, slot_of,
}
use snapshot_public.Examples.Btree.Order.{
  value_of, IsAscending, IsAscending-split, value_of-append_Under, value_of-append_Over, Over,
}

-- The items of the slots and of the tree below a node, in order; `none` is a tree that is deeper than
-- so many nodes, or a read of no node or behind an array.
unfoldable pub slots_entries : (ℕ → Option (List Item)) → List Item → List ℕ → Option (List Item)
slots_entries child items [] = none
slots_entries child [] (c ∷ cs) = child c
slots_entries child (it ∷ items) (c ∷ cs) =
    child c >>= λ xs. slots_entries child items cs >>= λ ys. some (xs ++ it ∷ ys)

unfoldable pub entries : ℕ → Store BtreeNode → ℕ → Option (List Item)
entries zero h p = if p == 0 then some [] else none
entries (suc depth) h p =
    let inner =
      (load h p >>= λ n. slots_entries (entries depth h) (take n.count n.items) n.children) in
    if p == 0 then some [] else inner

-- What a slot says of a key in the items.
unfoldable pub Answers : (ℕ → Option (List Item)) → ℕ → List Item → Slot → Type 0
Answers child key es (contained v) = value_of es key ≡ some v
Answers child key es (below c) =
    (c ≢ 0)
    × (xs : List Item) × (child c ≡ some xs)
    × IsAscending xs
    × (value_of es key ≡ value_of xs key)
Answers child key es absent = value_of es key ≡ none
Answers child key es outside = ⊥

pub entries_split :
    (child : ℕ → Option (List Item)) (it : Item) (items : List Item) (c : ℕ) (cs : List ℕ)
    (es : List Item)
    → slots_entries child (it ∷ items) (c ∷ cs) ≡ some es
    → (xs : List Item) × (ys : List Item) × (child c ≡ some xs)
      × (slots_entries child items cs ≡ some ys)
      × (xs ++ it ∷ ys ≡ es)
unfolding slots_entries
entries_split child it items c cs es e = elim (Option-cases (child c)) [
  | inl n ↦ absurd (ground (arith, n))
  | inr (xs, got) ↦ elim (Option-cases (slots_entries child items cs)) [
    | inl n ↦ absurd (ground (arith, got, n))
    | inr (ys, more) ↦ (xs, ys, got, more, ground (arith, got, more))
  ]
]

-- A key at, before or behind the item of a slot.
value_at :
    (xs ys : List Item) (it : Item) (key : ℕ)
    → IsAscending (xs ++ it ∷ ys)
    → it.key ≡ key
    → value_of (xs ++ it ∷ ys) key ≡ some it.val
unfolding value_of
value_at xs ys it key asc same =
    let (a, under, over, b) = IsAscending-split xs it ys asc in
    value_of-append_Under xs (it ∷ ys) it.key key under (omega arith) ∙ ground (arith)

value_behind :
    (xs ys : List Item) (it : Item) (key : ℕ)
    → IsAscending (xs ++ it ∷ ys)
    → it.key < key
    → value_of (xs ++ it ∷ ys) key ≡ value_of ys key
unfolding value_of
value_behind xs ys it key asc less =
    let (a, under, over, b) = IsAscending-split xs it ys asc in
    value_of-append_Under xs (it ∷ ys) it.key key under (omega arith) ∙ ground (arith)

value_of-empty :
    (xs ys : List Item) (it : Item) (key : ℕ)
    → xs ≡ []
    → key < it.key
    → value_of (xs ++ it ∷ ys) key ≡ value_of ys key
unfolding value_of
value_of-empty xs ys it key e less = rw e (ground arith)

-- What the slots behind say of the key, they say of it in all items.
Answers-more :
    (child : ℕ → Option (List Item)) (key : ℕ) (es ys : List Item) (slot : Slot)
    → value_of es key ≡ value_of ys key
    → Answers child key ys slot
    → Answers child key es slot
unfolding Answers
Answers-more child key es ys (contained v) e a = e ∙ a
Answers-more child key es ys (below c) e (nz, xs, got, asc, same) = (nz, xs, got, asc, e ∙ same)
Answers-more child key es ys absent e a = e ∙ a
Answers-more child key es ys outside e a = a

find_slot_step :
    (child : ℕ → Option (List Item)) (it : Item) (items : List Item) (c : ℕ) (cs : List ℕ)
    (xs ys : List Item) (key : ℕ)
    → child 0 ≡ some []
    → child c ≡ some xs
    → IsAscending (xs ++ it ∷ ys)
    → IsAscending xs
    → Over it.key ys
    → Answers child key ys (find_slot items cs key)
    → Answers child key (xs ++ it ∷ ys) (find_slot (it ∷ items) (c ∷ cs) key)
unfolding Answers find_slot
find_slot_step child it items c cs xs ys key null got asc asc_xs over rest =
    let behind = Answers-more child key (xs ++ it ∷ ys) ys (find_slot items cs key) in
    elim (Bool-cases (it.key == key)) [
      | inl same ↦ rw same (value_at xs ys it key asc (ground arith))
      | inr differ ↦ elim (Bool-cases (ltb key it.key)) [
        | inr more ↦ rw (differ, more) (behind (value_behind xs ys it key asc (ground arith)) rest)
        | inl less ↦
            let less' : key < it.key = ground arith in
            elim (Bool-cases (c == 0)) [
              | inr nz ↦
                  rw (differ, less, nz)
                    (ground arith, xs, got, asc_xs, value_of-append_Over xs ys it key over less')
              | inl z ↦
                  let empty : xs ≡ [] = ground (arith, z, got, null) in
                  rw (differ, less, z) (behind (value_of-empty xs ys it key empty less') rest)
            ]
      ]
    ]

pub find_slot-Answers :
    (child : ℕ → Option (List Item)) (items : List Item) (cs : List ℕ) (es : List Item) (key : ℕ)
    → child 0 ≡ some []
    → slots_entries child items cs ≡ some es
    → IsAscending es
    → Answers child key es (find_slot items cs key)
unfolding slots_entries Answers find_slot value_of
find_slot-Answers child items [] es key null e asc = absurd (cc e)
find_slot-Answers child [] (c ∷ cs) es key null e asc = elim (Bool-cases (c == 0)) [
  | inl z ↦
      let empty : [] ≡ es = ground (arith, z, e, null) in
      rw z (subst (λ es. value_of es key ≡ none) empty refl)
  | inr nz ↦ rw nz (ground arith, es, e, asc, refl)
]
find_slot-Answers child (it ∷ items) (c ∷ cs) es key null e asc =
    let (xs, ys, got, more, parts) = entries_split child it items c cs es e in
    let asc' : IsAscending (xs ++ it ∷ ys) = subst IsAscending (sym parts) asc in
    let (asc_xs, under, over, asc_ys) = IsAscending-split xs it ys asc' in
    let rest = find_slot-Answers child items cs ys key null more asc_ys in
    let at = find_slot_step child it items c cs xs ys key null got asc' asc_xs over rest in
    subst (λ es. Answers child key es (find_slot (it ∷ items) (c ∷ cs) key)) parts at

pub entries_null : (depth : ℕ) (h : Store BtreeNode) → entries depth h 0 ≡ some []
unfolding entries
entries_null zero h = refl
entries_null (suc depth) h = refl

pub entries_zero : (h : Store BtreeNode) (p : ℕ) → p ≢ 0 → entries zero h p ≡ none
unfolding entries
entries_zero h p nz = ground arith

-- The node of a tree, with the items of its slots.
pub entries_node :
    (depth : ℕ) (h : Store BtreeNode) (p : ℕ) (es : List Item)
    → p ≢ 0
    → entries (suc depth) h p ≡ some es
    → (n : BtreeNode) × (load h p ≡ some n)
      × (slots_entries (entries depth h) (take n.count n.items) n.children ≡ some es)
unfolding entries
entries_node depth h p es nz e = elim (Option-cases (load h p)) [
  | inl missing ↦ absurd (ground (arith, missing))
  | inr (n, got) ↦ (n, got, ground (arith, got))
]

pub slot-Answers :
    (depth : ℕ) (h : Store BtreeNode) (n : BtreeNode) (es : List Item) (key : ℕ)
    → slots_entries (entries depth h) (take n.count n.items) n.children ≡ some es
    → IsAscending es
    → Answers (entries depth h) key es (slot_of n key)
slot-Answers depth h n es key e asc =
    find_slot-Answers (entries depth h) (take n.count n.items) n.children es key
      (entries_null depth h) e asc

pub entries_at_null :
    (depth : ℕ) (h : Store BtreeNode) (es : List Item) → entries depth h 0 ≡ some es → [] ≡ es
entries_at_null depth h es e = let null = entries_null depth h in cc (null, e)
