-- ===== src/Examples/SimpleKv/Updates.antt =====
-- `simple_kv::put` of simplekv_puddles.hh with a key that is there.
use snapshot_public.Prelude.{
  ℕ, ◌%◌, ◌<◌, ◌≡◌, ◌≢◌, refl, sym, ◌∙◌, some, List, length, set, arith, get_elem?-some,
  get_elem?-set_self, get_elem?-set_ne, length-set,
}
use snapshot_public.Containers.Vector.{set_at, index}
use snapshot_public.Containers.Views.{view, write_elem_ok}
use snapshot_public.Examples.SimpleKv.{SimpleKv, Reservoir, find_key, get, put}
use snapshot_public.Examples.SimpleKv.Finding.{IsKv}

module _ (hash : List ℕ → ℕ) (n : ℕ) where
  put_present :
      (res : Reservoir) (kv : SimpleKv) (key : List ℕ) (val second : ℕ)
      → find_key (view (kv.buckets (hash key % n))) key ≡ some second
      → val < length kv.values.content
      → put hash n res kv key val
        ≡ some
            (record kv { values = record kv.values { content = set kv.values.content val second } })
  unfolding put set_at
  put_present res kv key val second e h =
      rw (put, e, write_elem_ok kv.values.content val second h) refl

  get-found :
      (kv : SimpleKv) (key : List ℕ) (place : ℕ)
      → find_key (view (kv.buckets (hash key % n))) key ≡ some place
      → get hash n kv key ≡ index kv.values place
  unfolding get
  get-found kv key place e = rw (get, e) refl

  -- `put` loses the new value of a key that is there: on a map in order, for a key whose value is at
  -- a place other than the number `val`, and `val` inside the array of values, `put` of `val`
  -- returns, but `get` of the key finds the old value, and `get` of any key whose value is at the
  -- place `val` finds the place of the first one.
  pub get-put_present :
      (res : Reservoir) (kv : SimpleKv) (key : List ℕ) (val second : ℕ)
      → IsKv kv
      → find_key (view (kv.buckets (hash key % n))) key ≡ some second
      → val < kv.values.capacity
      → val ≢ second
      → (kv' : SimpleKv) × (put hash n res kv key val ≡ some kv')
        × (get hash n kv' key ≡ get hash n kv key)
        × ((key' : List ℕ)
            → find_key (view (kv.buckets (hash key' % n))) key' ≡ some val
            → get hash n kv' key' ≡ some second)
        × IsKv kv'
  unfolding index
  get-put_present res kv key val second w e h ne =
      let inside : val < length kv.values.content = omega (arith, h, w.values.whole) in
      let kv' : SimpleKv = record kv {
        values = record kv.values { content = set kv.values.content val second };
      } in
      let (old, found) = get_elem?-some kv.values.content val inside in
      (
        kv',
        put_present res kv key val second e inside,
        get-found kv' key second e
            ∙ get_elem?-set_ne kv.values.content val second second ne
            ∙ sym (get-found kv key second e),
        λ key' e'.
            get-found kv' key' val e' ∙ get_elem?-set_self kv.values.content val old second found,
        record {
          buckets = w.buckets;
          values = record {
            whole = length-set kv.values.content val second ∙ w.values.whole;
            room = w.values.room;
          };
          places = w.places;
        },
      )
