-- ===== src/Examples/LinkedList/Moves.antt =====
-- One node more and one node less in the list of linkedlist_tx.cc.
use snapshot_public.Prelude.{
  ℕ, suc, ◌≤◌, ◌≡◌, ◌≢◌, refl, ap, sym, subst, ◌∙◌, true, false, none, some, List, [], ◌∷◌, ◌++◌,
  ◌==◌, length, arith,
}
use snapshot_public.Examples.LinkedList.{
  Heap, ListState, Allocate, append_first, append_behind, append_node, pop_head,
}
use snapshot_public.Examples.Stores.{load, release, load_new}
use snapshot_public.Examples.LinkedList.Chains.{
  Nodes, first, last, Chain, IsApart, IsDistinct, last-IsApart, Chain-release, Chain-IsApart,
  Chain-append,
}
use snapshot_public.Examples.LinkedList.Loops.{values}

-- The allocator has memory, and answers an address that is not null and not allocated.
abbrev pub IsAllocator : Allocate → Type 0
IsAllocator allocate = (h : Heap) → (a : ℕ) × (allocate h ≡ some a) × (a ≢ 0) × (load h a ≡ none)

-- The list goes through these nodes.
pub record IsListOf (st : ListState) (ns : Nodes) : Type 0 where
  pub head : st.head ≡ first ns
  pub tail : st.tail ≡ last ns
  pub chain : Chain st.heap ns
  pub distinct : IsDistinct ns

abbrev pub drop_first : List ℕ → List ℕ
drop_first [] = []
drop_first (x ∷ xs) = xs

last-append : (ns : Nodes) (n : ℕ × ℕ) → last (ns ++ n ∷ []) ≡ n.0
last-append [] n = refl
last-append (m ∷ []) n = refl
last-append (m ∷ k ∷ ns) n = last-append (k ∷ ns) n

first-append : (n : ℕ × ℕ) (ns ms : Nodes) → first (n ∷ ns ++ ms) ≡ n.0
first-append n ns ms = refl

pub values-append : (ns : Nodes) (n : ℕ × ℕ) → values (ns ++ n ∷ []) ≡ values ns ++ n.1 ∷ []
values-append [] n = refl
values-append (m ∷ ns) n = ap (λ t. m.1 ∷ t) (values-append ns n)

pub length-values : (ns : Nodes) → length (values ns) ≡ length ns
length-values [] = refl
length-values (n ∷ ns) = ap suc (length-values ns)

IsApart-append :
    (a : ℕ) (ns : Nodes) (n : ℕ × ℕ) → IsApart a ns → n.0 ≢ a → IsApart a (ns ++ n ∷ [])
IsApart-append a [] n w ne = (ne, tt)
IsApart-append a (m ∷ ns) n w ne = (w.0, IsApart-append a ns n w.1 ne)

IsDistinct-append :
    (ns : Nodes) (n : ℕ × ℕ) → IsDistinct ns → IsApart n.0 ns → IsDistinct (ns ++ n ∷ [])
IsDistinct-append [] n d w = (tt, tt)
IsDistinct-append (m ∷ ns) n d w =
    (IsApart-append m.0 ns n d.0 (λ e. w.0 (sym e)), IsDistinct-append ns n d.1 w.1)

pub append_node-IsListOf :
    (allocate : Allocate) (val : ℕ) (st : ListState) (ns : Nodes)
    → IsAllocator allocate
    → IsListOf st ns
    → (st' : ListState) × (a : ℕ) × (append_node allocate val st ≡ some st')
      × IsListOf st' (ns ++ (a, val) ∷ [])
unfolding append_node append_first append_behind
append_node-IsListOf allocate val st [] al w =
    let (a, got, nz, free) = al st.heap in
    let null : (st.head == 0) ≡ true = (let e = w.head in ground arith) in
    (
      append_first a val st,
      a,
      rw (got, null) refl,
      record {
        head = refl;
        tail = refl;
        chain = (nz, load_new st.heap a _, tt);
        distinct = (tt, tt);
      },
    )
append_node-IsListOf allocate val st (n ∷ ns) al w =
    let (a, got, nz, free) = al st.heap in
    let apart = Chain-IsApart st.heap a (n ∷ ns) w.chain free in
    let (m, found, chain) = Chain-append st.heap a val n ns w.chain w.distinct apart nz in
    let some_head : (st.head == 0) ≡ false =
      (let e = w.head in let nn = (w.chain).0 in ground arith) in
    let found' : load st.heap st.tail ≡ some m = ap (load st.heap) w.tail ∙ found in
    (
      record {
        heap =
            (a, record { next = 0; value = val })
            ∷ (st.tail, record { next = a; value = m.value })
            ∷ st.heap;
        head = st.head;
        tail = a;
      },
      a,
      rw (got, some_head, found') refl,
      record {
        head = w.head;
        tail = sym (last-append (n ∷ ns) (a, val));
        chain =
            subst
              (λ t.
                Chain
                  ((a, record { next = 0; value = val })
                    ∷ (t, record { next = a; value = m.value })
                    ∷ st.heap)
                  (n ∷ ns ++ (a, val) ∷ []))
              (sym w.tail) chain;
        distinct = IsDistinct-append (n ∷ ns) (a, val) w.distinct apart;
      },
    )

pub pop_head-IsListOf :
    (st : ListState) (ns : Nodes)
    → IsListOf st ns
    → (st' : ListState) × (ms : Nodes) × (pop_head st ≡ some st')
      × IsListOf st' ms
      × (values ms ≡ drop_first (values ns))
      × (length ms ≤ length ns)
unfolding pop_head
pop_head-IsListOf st [] w =
    let null : (st.head == 0) ≡ true = (let e = w.head in ground arith) in
    (st, [], rw (pop_head, null) refl, w, refl, omega arith)
pop_head-IsListOf st (n ∷ []) w =
    let e = w.head in
    let t = w.tail in
    let nn = (w.chain).0 in
    let some_head : (st.head == 0) ≡ false = ground arith in
    let only : (st.head == st.tail) ≡ true = ground arith in
    (
      record { heap = release st.heap st.head; head = 0; tail = 0 },
      [],
      rw (pop_head, some_head, only) refl,
      record { head = refl; tail = refl; chain = tt; distinct = tt },
      refl,
      omega arith,
    )
pop_head-IsListOf st (n ∷ m ∷ ns) w =
    let e = w.head in
    let t = w.tail in
    let nn = (w.chain).0 in
    let apart = last-IsApart n.0 m ns (w.distinct).0 in
    let some_head : (st.head == 0) ≡ false = ground arith in
    let more : (st.head == st.tail) ≡ false = ground arith in
    let found : load st.heap st.head ≡ some (record { next = m.0; value = n.1 }) =
      ap (load st.heap) w.head ∙ (w.chain).1 in
    (
      record st { heap = release st.heap st.head; head = m.0 },
      m ∷ ns,
      rw (pop_head, some_head, more, found) refl,
      record {
        head = refl;
        tail = w.tail;
        chain =
            subst (λ p. Chain (release st.heap p) (m ∷ ns)) (sym w.head)
              (Chain-release st.heap n.0 (m ∷ ns) (w.distinct).0 (w.chain).2);
        distinct = (w.distinct).1;
      },
      refl,
      omega arith,
    )
