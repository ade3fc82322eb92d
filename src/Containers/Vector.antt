-- ===== src/Containers/Vector.antt =====
-- vector.hh: `libpuddles::obj::vector` of elements that are copied bytewise or by assignment. An
-- array is the list of its elements; `reservoir_t::malloc` is a parameter that answers an array of
-- any content.
use snapshot_public.Prelude.{
  ℕ, zero, suc, ◌+◌, ◌*◌, Option, none, some, List, [], ◌∷◌, ltb, ◌==◌, if◌then◌else◌, length,
  get_elem?, set, ◌>>=◌,
}

-- `reservoir_t::malloc` for a number of elements; `none` is an exception.
abbrev pub Malloc {ℓ} : Type ℓ → Type ℓ
Malloc A = ℕ → Option (List A)

pub record Vector {ℓ} (A : Type ℓ) : Type ℓ where
  pub size : ℕ
  pub content : List A
  pub capacity : ℕ

module _ {ℓ} {A : Type ℓ} where
  -- The default constructor; the null pointer is the empty array.
  unfoldable pub new_vector : Vector A
  new_vector = record { size = 0; content = []; capacity = 0 }

  -- `init(res)`
  unfoldable pub init_empty : Malloc A → Option (Vector A)
  init_empty malloc = do
    content ← malloc 2
    some (record { size = 0; content = content; capacity = 2 })

  -- `memcpy`, or the loop in its place, of the first elements of one array to another.
  unfoldable pub copy_elems : ℕ → (src dst : List A) → List A
  copy_elems zero src dst = dst
  copy_elems (suc n) [] dst = dst
  copy_elems (suc n) (x ∷ src) [] = []
  copy_elems (suc n) (x ∷ src) (y ∷ dst) = x ∷ copy_elems n src dst

  unfoldable pub resize : Malloc A → Vector A → Option (Vector A)
  resize malloc v = do
    let new_capacity = if v.capacity == 0 then 2 else v.capacity * 2
    tmp_content ← malloc new_capacity
    some (record v {
      content = copy_elems v.capacity v.content tmp_content;
      capacity = new_capacity;
    })

  -- A write to the array; `none` is one behind its end.
  unfoldable pub write_elem : List A → ℕ → A → Option (List A)
  write_elem content idx x = if ltb idx (length content) then some (set content idx x) else none

  unfoldable pub push_back : Malloc A → Vector A → A → Option (Vector A)
  push_back malloc v new_elem = do
    v' ← if v.size == v.capacity then resize malloc v else some v
    content ← write_elem v'.content v'.size new_elem
    some (record v' { content = content; size = v'.size + 1 })

  unfoldable pub set_at : Vector A → A → ℕ → Option (Vector A)
  set_at v new_elem idx = do
    content ← write_elem v.content idx new_elem
    some (record v { content = content })

  -- `operator[]`; `none` is behind the end of the array.
  unfoldable pub index : Vector A → ℕ → Option A
  index v idx = get_elem? v.content idx

  -- `init(res, elems, num)` for trivial types
  unfoldable pub init_elems : Malloc A → List A → ℕ → Option (Vector A)
  init_elems malloc elems num = do
    content ← malloc (num * 2)
    some (record { size = num; content = copy_elems num elems content; capacity = num * 2 })

  -- `init(res, const vector &)`
  unfoldable pub init_copy : Malloc A → Vector A → Option (Vector A)
  init_copy malloc new_elems = do
    content ← malloc new_elems.capacity
    some (record {
      size = new_elems.size;
      content = copy_elems new_elems.size new_elems.content content;
      capacity = new_elems.capacity;
    })

  -- `init(res, vector &&)`: the new vector, and what is left of the other.
  unfoldable pub init_move : Vector A → Vector A × Vector A
  init_move new_elems = (new_elems, record { size = 0; content = []; capacity = 0 })
