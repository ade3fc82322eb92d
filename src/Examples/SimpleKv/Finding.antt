-- ===== src/Examples/SimpleKv/Finding.antt =====
-- The entries and values of simplekv_puddles.hh behind a `push_back`.
use snapshot_public.Prelude.{
  ℕ, ◌+◌, ◌≤◌, ◌<◌, ◌≡◌, refl, ap, sym, subst, ◌∙◌, true, false, none, some, inl, inr, List, [],
  ◌∷◌, ◌++◌, ◌==◌, if◌then◌else◌, length, get_elem?, All, arith, Bool-cases, length-take,
  get_elem?-append, get_elem?-last,
}
use snapshot_public.Containers.Vector.{Vector, index}
use snapshot_public.Containers.Views.{IsMalloc, IsVector, view, index-view}
use snapshot_public.Containers.Strings.{eq_string}
use snapshot_public.Examples.SimpleKv.{Entry, SimpleKv, Reservoir, put_bucket, find_key}

-- The reservoir always has memory.
pub record IsReservoir (res : Reservoir) : Type 0 where
  pub chars : IsMalloc res.chars
  pub numbers : IsMalloc res.numbers
  pub entries : IsMalloc res.entries

-- The vectors are in order, and every entry has the place of a value.
pub record IsKv (kv : SimpleKv) : Type 0 where
  pub buckets : (b : ℕ) → IsVector (kv.buckets b)
  pub values : IsVector kv.values
  pub places : (b : ℕ) → All (λ (e : Entry). e.1 < kv.values.size) (view (kv.buckets b))

pub length-view {ℓ} : {A : Type ℓ} (v : Vector A) → IsVector v → length (view v) ≡ v.size
length-view v w = length-take v.size v.content (omega (arith, w.whole, w.room))

-- A new entry is found where no other has its key.
pub find_key-append_other :
    (es : List Entry) (e : Entry) (key : List ℕ)
    → eq_string e.0 key ≡ false
    → find_key (es ++ e ∷ []) key ≡ find_key es key
unfolding find_key
find_key-append_other [] e key h = rw (find_key, h) refl
find_key-append_other (x ∷ es) e key h =
    ap (λ r. if eq_string x.0 key then some x.1 else r) (find_key-append_other es e key h)

pub find_key-append_self :
    (es : List Entry) (e : Entry) (key : List ℕ)
    → find_key es key ≡ none
    → eq_string e.0 key ≡ true
    → find_key (es ++ e ∷ []) key ≡ some e.1
unfolding find_key
find_key-append_self [] e key n h = rw (find_key, h) refl
find_key-append_self (x ∷ es) e key n h = elim (Bool-cases (eq_string x.0 key)) [
  | inl t ↦ absurd (ground arith)
  | inr f ↦
      let n' : find_key es key ≡ none = ground arith in
      rw (find_key, f) (find_key-append_self es e key n' h)
]

pub find_key-place :
    (es : List Entry) (key : List ℕ) (m place : ℕ)
    → All (λ (e : Entry). e.1 < m) es
    → find_key es key ≡ some place
    → place < m
unfolding find_key
find_key-place [] key m place a h = absurd (cc h)
find_key-place (x ∷ es) key m place a h = elim (Bool-cases (eq_string x.0 key)) [
  | inl t ↦ let same : x.1 ≡ place = ground arith in subst (λ p. p < m) same a.0
  | inr f ↦ find_key-place es key m place a.1 (ground arith)
]

-- A value in use is not changed by another one behind it.
pub index-push_back :
    (v v' : Vector ℕ) (x place : ℕ)
    → IsVector v
    → IsVector v'
    → view v' ≡ view v ++ x ∷ []
    → v'.size ≡ v.size + 1
    → place < v.size
    → index v' place ≡ index v place
index-push_back v v' x place w w' e s h =
    index-view v' place (omega (arith, s))
    ∙ ap (λ l. get_elem? l place) e
    ∙ get_elem?-append (view v) (x ∷ []) place (omega (arith, length-view v w))
    ∙ sym (index-view v place h)

pub index-push_back_last :
    (v v' : Vector ℕ) (x : ℕ)
    → IsVector v
    → view v' ≡ view v ++ x ∷ []
    → v'.size ≡ v.size + 1
    → index v' v.size ≡ some x
index-push_back_last v v' x w e s =
    index-view v' v.size (omega (arith, s))
    ∙ ap (λ l. get_elem? l v.size) e
    ∙ ap (get_elem? (view v ++ x ∷ [])) (sym (length-view v w))
    ∙ get_elem?-last (view v) x

-- A property of the new bucket and of the old ones.
pub put_bucket_all :
    (Q : Vector Entry → Type 0) (buckets : ℕ → Vector Entry) (b : ℕ) (v : Vector Entry) (i : ℕ)
    → Q v
    → Q (buckets i)
    → Q (put_bucket buckets b v i)
put_bucket_all Q buckets b v i new old = elim (Bool-cases (i == b)) [
  | inl e ↦ rw e new
  | inr e ↦ rw e old
]

pub more_places :
    (es : List Entry) (m k : ℕ)
    → m ≤ k
    → All (λ (e : Entry). e.1 < m) es
    → All (λ (e : Entry). e.1 < k) es
more_places [] m k h a = tt
more_places (x ∷ es) m k h a = (omega (arith, a.0), more_places es m k h a.1)
