-- ===== src/Examples/Btree/Order.antt =====
-- Lists of items in the order of their keys.
use snapshot_public.Prelude.{
  ℕ, ◌<◌, ◌≡◌, refl, Option, none, some, List, [], ◌∷◌, ◌++◌, ◌==◌, if◌then◌else◌, All, arith, ap,
}
use snapshot_public.Examples.Btree.{Item}

-- The value of the first item with a key.
unfoldable pub value_of : List Item → ℕ → Option ℕ
value_of [] key = none
value_of (it ∷ es) key = let rest = value_of es key in if it.key == key then some it.val else rest

abbrev pub IsAscending : List Item → Type 0
IsAscending [] = Unit
IsAscending (it ∷ es) = All (λ (e : Item). it.key < e.key) es × IsAscending es

abbrev pub Under : ℕ → List Item → Type 0
Under key es = All (λ (e : Item). e.key < key) es

abbrev pub Over : ℕ → List Item → Type 0
Over key es = All (λ (e : Item). key < e.key) es

All-append_split :
    (P : Item → Type 0) (xs : List Item) (it : Item) (ys : List Item)
    → All P (xs ++ it ∷ ys)
    → All P xs × P it
All-append_split P [] it ys a = (tt, a.0)
All-append_split P (x ∷ xs) it ys a =
    let (all, last) = All-append_split P xs it ys a.1 in ((a.0, all), last)

-- The parts of a list in order.
pub IsAscending-split :
    (xs : List Item) (it : Item) (ys : List Item)
    → IsAscending (xs ++ it ∷ ys)
    → IsAscending xs × Under it.key xs × Over it.key ys × IsAscending ys
IsAscending-split [] it ys a = (tt, tt, a.0, a.1)
IsAscending-split (x ∷ xs) it ys a =
    let (asc, under, over, rest) = IsAscending-split xs it ys a.1 in
    let (all, less) = All-append_split (λ (e : Item). x.key < e.key) xs it ys a.0 in
    ((all, asc), (less, under), over, rest)

pub value_of-Over : (es : List Item) (k key : ℕ) → Over k es → key < k → value_of es key ≡ none
unfolding value_of
value_of-Over [] k key o h = refl
value_of-Over (e ∷ es) k key o h =
    let ih = value_of-Over es k key o.1 h in let less = o.0 in ground arith

-- The items before one, with smaller keys, do not have its key, nor a greater one.
pub value_of-append_Under :
    (xs ys : List Item) (k key : ℕ)
    → Under k xs
    → (key < k → ⊥)
    → value_of (xs ++ ys) key ≡ value_of ys key
unfolding value_of
value_of-append_Under [] ys k key u h = refl
value_of-append_Under (x ∷ xs) ys k key u h =
    let ih = value_of-append_Under xs ys k key u.1 h in let less = u.0 in ground arith

-- The items from one on, with greater keys, do not have a smaller key.
pub value_of-append_Over :
    (xs ys : List Item) (it : Item) (key : ℕ)
    → Over it.key ys
    → key < it.key
    → value_of (xs ++ it ∷ ys) key ≡ value_of xs key
unfolding value_of
value_of-append_Over [] ys it key o h =
    let none_over = value_of-Over ys it.key key o h in ground arith
value_of-append_Over (x ∷ xs) ys it key o h =
    ap (λ r. if x.key == key then some x.val else r) (value_of-append_Over xs ys it key o h)
