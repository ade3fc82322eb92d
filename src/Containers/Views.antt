-- ===== src/Containers/Views.antt =====
-- The list of elements that a vector of vector.hh holds.
use snapshot_public.Prelude.{
  ℕ, zero, suc, ◌+◌, ◌*◌, ◌≤◌, ◌<◌, ◌≡◌, refl, ap, sym, ◌∙◌, some, inl, inr, List, [], ◌∷◌, ◌++◌,
  ◌==◌, if◌then◌else◌, length, get_elem?, set, take, arith, Bool-cases, length-set, get_elem?-take,
  take_all,
}
use snapshot_public.Containers.Vector.{
  Malloc, Vector, copy_elems, resize, write_elem, push_back, index, init_elems, init_copy,
}

-- There is always memory, and as much as was asked for.
abbrev pub IsMalloc {ℓ} : {A : Type ℓ} → Malloc A → Type ℓ
IsMalloc malloc = (n : ℕ) → (xs : List _) × (malloc n ≡ some xs) × (length xs ≡ n)

add_one : (n : ℕ) → n + 1 ≡ suc n
add_one n = omega arith

module _ {ℓ} {A : Type ℓ} where
  abbrev pub view : Vector A → List A
  view v = take v.size v.content

  -- The array has as many elements as the capacity says, and room for those in use.
  pub record IsVector (v : Vector A) : Type ℓ where
    pub whole : length v.content ≡ v.capacity
    pub room : v.size ≤ v.capacity

  length-copy_elems : (n : ℕ) (src dst : List A) → length (copy_elems n src dst) ≡ length dst
  unfolding copy_elems
  length-copy_elems zero src dst = refl
  length-copy_elems (suc n) [] dst = refl
  length-copy_elems (suc n) (x ∷ src) [] = refl
  length-copy_elems (suc n) (x ∷ src) (y ∷ dst) = ap suc (length-copy_elems n src dst)

  take-copy_elems :
      (k n : ℕ) (src dst : List A)
      → k ≤ n
      → n ≤ length src
      → n ≤ length dst
      → take k (copy_elems n src dst) ≡ take k src
  unfolding copy_elems
  take-copy_elems zero n src dst a b c = refl
  take-copy_elems (suc k) zero src dst a b c = absurd (omega arith)
  take-copy_elems (suc k) (suc n) [] dst a b c = absurd (omega arith)
  take-copy_elems (suc k) (suc n) (x ∷ src) [] a b c = absurd (omega arith)
  take-copy_elems (suc k) (suc n) (x ∷ src) (y ∷ dst) a b c =
      ap (λ t. x ∷ t) (take-copy_elems k n src dst (omega arith) (omega arith) (omega arith))

  take-set :
      (n : ℕ) (xs : List A) (x : A)
      → n < length xs
      → take (suc n) (set xs n x) ≡ take n xs ++ x ∷ []
  take-set n [] x h = absurd (omega arith)
  take-set zero (y ∷ ys) x h = refl
  take-set (suc n) (y ∷ ys) x h = ap (λ t. y ∷ t) (take-set n ys x (omega arith))

  resize-view :
      (malloc : Malloc A) (v : Vector A)
      → IsMalloc malloc
      → IsVector v
      → (v' : Vector A) × (resize malloc v ≡ some v')
        × (view v' ≡ view v)
        × (v'.size ≡ v.size)
        × (length v'.content ≡ v'.capacity)
        × (v'.size < v'.capacity)
  unfolding resize
  resize-view malloc v m w =
      let new_capacity = if v.capacity == 0 then 2 else v.capacity * 2 in
      let (tmp, got, len) = m new_capacity in
      let more : v.capacity < new_capacity = ground arith in
      (
        record v { content = copy_elems v.capacity v.content tmp; capacity = new_capacity },
        rw got refl,
        take-copy_elems v.size v.capacity v.content tmp w.room (omega (arith, w.whole))
            (omega (arith, len, more)),
        refl,
        length-copy_elems v.capacity v.content tmp ∙ len,
        omega (arith, w.room, more),
      )

  -- The vector that `push_back` writes to.
  grown :
      (malloc : Malloc A) (v : Vector A)
      → IsMalloc malloc
      → IsVector v
      → (v' : Vector A) × ((if v.size == v.capacity then resize malloc v else some v) ≡ some v')
        × (view v' ≡ view v)
        × (v'.size ≡ v.size)
        × (length v'.content ≡ v'.capacity)
        × (v'.size < v'.capacity)
  grown malloc v m w = elim (Bool-cases (v.size == v.capacity)) [
    | inl e ↦ rw e (resize-view malloc v m w)
    | inr e ↦ (v, rw e refl, refl, refl, w.whole, (let room = w.room in ground arith))
  ]

  pub write_elem_ok :
      (content : List A) (idx : ℕ) (x : A)
      → idx < length content
      → write_elem content idx x ≡ some (set content idx x)
  unfolding write_elem
  write_elem_ok content idx x h = ground arith

  pub push_back-view :
      (malloc : Malloc A) (v : Vector A) (x : A)
      → IsMalloc malloc
      → IsVector v
      → (v' : Vector A) × (push_back malloc v x ≡ some v')
        × IsVector v'
        × (view v' ≡ view v ++ x ∷ [])
        × (v'.size ≡ v.size + 1)
  unfolding push_back
  push_back-view malloc v x m w =
      let (u, got, same, size, whole, room) = grown malloc v m w in
      let inside : u.size < length u.content = omega (arith, whole, room) in
      (
        record u { content = set u.content u.size x; size = u.size + 1 },
        rw (got, write_elem_ok u.content u.size x inside) refl,
        record { whole = length-set u.content u.size x ∙ whole; room = omega (arith, room) },
        ap (λ k. take k (set u.content u.size x)) (add_one u.size)
            ∙ take-set u.size u.content x inside
            ∙ ap (λ t. t ++ x ∷ []) same,
        omega (arith, size),
      )

  -- An element in use is at its place in the list.
  pub index-view : (v : Vector A) (i : ℕ) → i < v.size → index v i ≡ get_elem? (view v) i
  unfolding index
  index-view v i h = sym (get_elem?-take v.size v.content i h)

  pub init_copy-view :
      (malloc : Malloc A) (v : Vector A)
      → IsMalloc malloc
      → IsVector v
      → (v' : Vector A) × (init_copy malloc v ≡ some v') × IsVector v' × (view v' ≡ view v)
  unfolding init_copy
  init_copy-view malloc v m w =
      let (content, got, len) = m v.capacity in
      (
        record {
          size = v.size;
          content = copy_elems v.size v.content content;
          capacity = v.capacity;
        },
        rw got refl,
        record { whole = length-copy_elems v.size v.content content ∙ len; room = w.room },
        take-copy_elems v.size v.size v.content content (omega arith)
            (omega (arith, w.room, w.whole)) (omega (arith, w.room, len)),
      )

  pub init_elems-view :
      (malloc : Malloc A) (elems : List A)
      → IsMalloc malloc
      → (v : Vector A) × (init_elems malloc elems (length elems) ≡ some v)
        × IsVector v
        × (view v ≡ elems)
        × (v.size ≡ length elems)
  unfolding init_elems
  init_elems-view malloc elems m =
      let n = length elems in
      let (content, got, len) = m (n * 2) in
      (
        record { size = n; content = copy_elems n elems content; capacity = n * 2 },
        rw got refl,
        record { whole = length-copy_elems n elems content ∙ len; room = omega arith },
        take-copy_elems n n elems content (omega arith) (omega arith) (omega (arith, len))
            ∙ take_all elems,
        refl,
      )
