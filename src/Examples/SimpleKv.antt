-- ===== src/Examples/SimpleKv.antt =====
-- simplekv_puddles.hh: a map from strings to numbers, kept as buckets of keys with the places of
-- their values. The hash of strings is a parameter, and `sync` is left out.
pub mod Finding
pub mod Inserts
pub mod Updates
use snapshot_public.Prelude.{
  ℕ, zero, suc, ◌+◌, ◌-◌, ◌%◌, Bool, Option, none, some, List, [], ◌∷◌, ◌==◌, if◌then◌else◌, ◌>>=◌,
}
use snapshot_public.Containers.Vector.{Malloc, Vector, init_empty, push_back, set_at, index}
use snapshot_public.Containers.Views.{view}
use snapshot_public.Containers.Strings.{ObjString, init_string, eq_string}

-- `bucket_elem_type`
abbrev pub Entry : Type 0
Entry = ObjString × ℕ

-- A `simple_kv<int, N>` whose values are not negative.
pub record SimpleKv : Type 0 where
  pub buckets : ℕ → Vector Entry
  pub values : Vector ℕ

-- The allocator of the reservoir, for each type of element.
pub record Reservoir : Type 0 where
  pub chars : Malloc ℕ
  pub numbers : Malloc ℕ
  pub entries : Malloc Entry

abbrev pub put_bucket : (ℕ → Vector Entry) → ℕ → Vector Entry → ℕ → Vector Entry
put_bucket buckets b v i = if i == b then v else buckets i

-- The loop of `init` over so many buckets, from one on.
unfoldable pub init_buckets : Reservoir → (n i : ℕ) → (ℕ → Vector Entry) → Option (ℕ → Vector Entry)
init_buckets res zero i buckets = some buckets
init_buckets res (suc n) i buckets = do
  b ← init_empty res.entries
  init_buckets res n (i + 1) (put_bucket buckets i b)

-- The loop over the elements of a bucket: the place of the value of a key.
unfoldable pub find_key : List Entry → List ℕ → Option ℕ
find_key [] key = none
find_key (e ∷ es) key = let rest = find_key es key in if eq_string e.0 key then some e.1 else rest

module _ (hash : List ℕ → ℕ) (n : ℕ) where
  -- `simple_kv::init`
  unfoldable pub init : Reservoir → SimpleKv → Option SimpleKv
  init res kv = do
    buckets ← init_buckets res n 0 kv.buckets
    values ← init_empty res.numbers
    some (record kv { buckets = buckets; values = values })

  -- `simple_kv::get`; `none` is the exception for a missing key.
  unfoldable pub get : SimpleKv → List ℕ → Option ℕ
  get kv key = do place ← find_key (view (kv.buckets (hash key % n))) key; index kv.values place

  -- The rest of `put`, behind its loop, for a key that is not there.
  unfoldable pub insert : Reservoir → SimpleKv → List ℕ → ℕ → Option SimpleKv
  insert res kv key val = do
    values ← push_back res.numbers kv.values val
    first ← init_string res.chars key
    bucket ← push_back res.entries (kv.buckets (hash key % n)) (first, values.size - 1)
    some (record kv { values = values; buckets = put_bucket kv.buckets (hash key % n) bucket })

  -- `simple_kv::put`. For a key that is there it does `values[val] = second`; `none` is an exception
  -- of the allocator, or a write behind the end of the array.
  unfoldable pub put : Reservoir → SimpleKv → List ℕ → ℕ → Option SimpleKv
  put res kv key val = elim (find_key (view (kv.buckets (hash key % n))) key) [
    | none ↦ insert res kv key val
    | some second ↦ (do values ← set_at kv.values second val; some (record kv { values = values }))
  ]
