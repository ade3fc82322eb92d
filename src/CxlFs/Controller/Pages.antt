-- ===== src/CxlFs/Controller/Pages.antt =====
-- The set of mapped pages, as a list with no page twice.
use snapshot_public.Prelude.{
  ℕ, zero, suc, ◌+◌, ◌%◌, ◌<◌, ◌≡◌, refl, ◌⊎◌, inl, inr, true, false, ◌||◌, Option, none, some,
  List, [], ◌∷◌, ◌==◌, if◌then◌else◌, length, get_elem?, get_elem?-some, Bool-cases, arith,
}
use snapshot_public.CxlFs.Controller.{
  Controller, EvictEnv, contains, erase, mark, find_target, choose_target,
}

abbrev pub IsNodup : List ℕ → Type 0
IsNodup [] = Unit
IsNodup (y ∷ ys) = (contains ys y ≡ false) × IsNodup ys

pub contains-erase :
    (ys : List ℕ) (x z : ℕ) → contains (erase ys x) z ≡ (if x == z then false else contains ys z)
unfolding contains erase
contains-erase [] x z = ground arith
contains-erase (y ∷ ys) x z = ground (arith, contains-erase ys x z)

pub contains-mark : (ys : List ℕ) (x z : ℕ) → contains (mark ys x) z ≡ (x == z) || contains ys z
unfolding contains mark
contains-mark ys x z = ground arith

erase_absent : (ys : List ℕ) (x : ℕ) → contains ys x ≡ false → erase ys x ≡ ys
unfolding contains erase
erase_absent [] x h = refl
erase_absent (y ∷ ys) x h = ground (arith, erase_absent ys x)

pub length-erase :
    (ys : List ℕ) (x : ℕ) → IsNodup ys → contains ys x ≡ true → length (erase ys x) + 1 ≡ length ys
unfolding contains erase
length-erase [] x n h = cc
length-erase (y ∷ ys) x n h = ground (arith, length-erase ys x n.1, erase_absent ys x, n.0)

pub IsNodup-erase : (ys : List ℕ) (x : ℕ) → IsNodup ys → IsNodup (erase ys x)
unfolding erase
IsNodup-erase [] x n = tt
IsNodup-erase (y ∷ ys) x n = elim (Bool-cases (y == x)) [
  | inl e ↦ rw e (IsNodup-erase ys x n.1)
  | inr e ↦ rw e (ground (arith, contains-erase ys x y, n.0), IsNodup-erase ys x n.1)
]

pub IsNodup-mark : (ys : List ℕ) (x : ℕ) → IsNodup ys → IsNodup (mark ys x)
unfolding mark
IsNodup-mark ys x n = elim (Bool-cases (contains ys x)) [ inl e ↦ rw e n | inr e ↦ rw e (e, n) ]

pub length-mark : (ys : List ℕ) (x : ℕ) → contains ys x ≡ false → length (mark ys x) ≡ length ys + 1
unfolding mark
length-mark ys x h = rw h (omega arith)

contains_elem : (ys : List ℕ) (i x : ℕ) → get_elem? ys i ≡ some x → contains ys x ≡ true
unfolding contains
contains_elem [] i x h = cc
contains_elem (y ∷ ys) zero x h = ground arith
contains_elem (y ∷ ys) (suc i) x h = ground (arith, contains_elem ys i x h)

-- The search finds a mapped page, or what it began with.
find_target-contains :
    (dist : List ℕ) (cnt : ℕ) (target : Option ℕ) (pgs : List ℕ) (x : ℕ)
    → find_target dist cnt target pgs ≡ some x
    → (target ≡ some x) ⊎ (contains pgs x ≡ true)
unfolding find_target contains
find_target-contains dist cnt target [] x h = inl h
find_target-contains dist cnt target (pg ∷ pgs) x h = ground (
  arith,
  find_target-contains dist (cnt + 1) (if contains dist pg then target else some pg) pgs x,
)

pub choose_target-contains :
    (env : EvictEnv) (c : Controller) (x : ℕ)
    → choose_target env c ≡ some x
    → contains c.mapped_pages x ≡ true
unfolding choose_target
choose_target-contains env c x h = ground (
  arith,
  find_target-contains c.dist 0 none c.mapped_pages x,
  contains_elem c.mapped_pages (env.rand % length c.mapped_pages) x,
)

-- A target is found as soon as a page is mapped.
pub choose_target-some :
    (env : EvictEnv) (c : Controller)
    → 0 < length c.mapped_pages
    → (x : ℕ) × (choose_target env c ≡ some x)
unfolding choose_target
choose_target-some env c h = go (find_target c.dist 0 none c.mapped_pages) refl
  where
    go :
        (t : Option ℕ)
        → find_target c.dist 0 none c.mapped_pages ≡ t
        → (x : ℕ) × (choose_target env c ≡ some x)
    go (some x) e = (x, ground arith)
    go none e =
        let (x, f) =
          get_elem?-some c.mapped_pages (env.rand % length c.mapped_pages) (ground arith) in
        (x, ground arith)
