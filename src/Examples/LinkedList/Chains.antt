-- ===== src/Examples/LinkedList/Chains.antt =====
-- The nodes that a list of linkedlist_tx.cc goes through.
use snapshot_public.Prelude.{ℕ, ◌≡◌, ◌≢◌, ap, sym, ◌∙◌, none, some, List, [], ◌∷◌, ◌++◌, All}
use snapshot_public.Examples.LinkedList.{Node, Heap}
use snapshot_public.Examples.Stores.{load, release, load_new, load_old, load-release}

-- Nodes by their addresses and numbers.
abbrev pub Nodes : Type 0
Nodes = List (ℕ × ℕ)

abbrev pub first : Nodes → ℕ
first [] = 0
first (n ∷ ns) = n.0

abbrev pub last : Nodes → ℕ
last [] = 0
last (n ∷ []) = n.0
last (n ∷ m ∷ ns) = last (m ∷ ns)

-- Each node is in the heap, at an address of its own, and leads to the next.
abbrev pub Chain : Heap → Nodes → Type 0
Chain h [] = Unit
Chain h (n ∷ ns) =
    (n.0 ≢ 0) × (load h n.0 ≡ some (record { next = first ns; value = n.1 })) × Chain h ns

abbrev pub IsApart : ℕ → Nodes → Type 0
IsApart a ns = All (λ (n : ℕ × ℕ). n.0 ≢ a) ns

abbrev pub IsDistinct : Nodes → Type 0
IsDistinct [] = Unit
IsDistinct (n ∷ ns) = IsApart n.0 ns × IsDistinct ns

pub last-IsApart : (a : ℕ) (n : ℕ × ℕ) (ns : Nodes) → IsApart a (n ∷ ns) → last (n ∷ ns) ≢ a
last-IsApart a n [] w = w.0
last-IsApart a n (m ∷ ns) w = last-IsApart a m ns w.1

-- Nodes that read the same are the same chain.
pub Chain-frame :
    (h h' : Heap) (ns : Nodes)
    → Chain h ns
    → All (λ (n : ℕ × ℕ). load h' n.0 ≡ load h n.0) ns
    → Chain h' ns
Chain-frame h h' [] c same = tt
Chain-frame h h' (n ∷ ns) c same = (c.0, same.0 ∙ c.1, Chain-frame h h' ns c.2 same.1)

apart_old :
    (h : Heap) (a : ℕ) (n : Node) (ns : Nodes)
    → IsApart a ns
    → All (λ (m : ℕ × ℕ). load ((a, n) ∷ h) m.0 ≡ load h m.0) ns
apart_old h a n [] w = tt
apart_old h a n (m ∷ ns) w = (load_old h a m.0 n w.0, apart_old h a n ns w.1)

pub Chain-new :
    (h : Heap) (a : ℕ) (n : Node) (ns : Nodes) → IsApart a ns → Chain h ns → Chain ((a, n) ∷ h) ns
Chain-new h a n ns w c = Chain-frame h ((a, n) ∷ h) ns c (apart_old h a n ns w)

apart_released :
    (h : Heap) (a : ℕ) (ns : Nodes)
    → IsApart a ns
    → All (λ (m : ℕ × ℕ). load (release h a) m.0 ≡ load h m.0) ns
apart_released h a [] w = tt
apart_released h a (m ∷ ns) w = (load-release h a m.0 w.0, apart_released h a ns w.1)

pub Chain-release :
    (h : Heap) (a : ℕ) (ns : Nodes) → IsApart a ns → Chain h ns → Chain (release h a) ns
Chain-release h a ns w c = Chain-frame h (release h a) ns c (apart_released h a ns w)

-- An address that is not allocated is apart from the nodes of a chain.
pub Chain-IsApart : (h : Heap) (a : ℕ) (ns : Nodes) → Chain h ns → load h a ≡ none → IsApart a ns
Chain-IsApart h a [] c free = tt
Chain-IsApart h a (n ∷ ns) c free = (
  λ e. let same : load h n.0 ≡ none = ap (load h) e ∙ free in cc (same, c.1),
  Chain-IsApart h a ns c.2 free,
)

-- The last node leads to a new one.
pub Chain-append :
    (h : Heap) (a val : ℕ) (n : ℕ × ℕ) (ns : Nodes)
    → Chain h (n ∷ ns)
    → IsDistinct (n ∷ ns)
    → IsApart a (n ∷ ns)
    → a ≢ 0
    → (m : Node) × (load h (last (n ∷ ns)) ≡ some m)
      × Chain
          ((a, record { next = 0; value = val })
            ∷ (last (n ∷ ns), record { next = a; value = m.value })
            ∷ h)
          (n ∷ ns ++ (a, val) ∷ [])
Chain-append h a val n [] c d w nz = (
  record { next = 0; value = n.1 },
  c.1,
  (c.0, load_old _ a n.0 _ w.0 ∙ load_new h n.0 _, (nz, load_new _ a _, tt)),
)
Chain-append h a val n (k ∷ ns) c d w nz =
    let (m, found, chain) = Chain-append h a val k ns c.2 d.1 w.1 nz in
    let apart : n.0 ≢ last (k ∷ ns) = λ e. last-IsApart n.0 k ns d.0 (sym e) in
    (m, found, (c.0, load_old _ a n.0 _ w.0 ∙ load_old h (last (k ∷ ns)) n.0 _ apart ∙ c.1, chain))
