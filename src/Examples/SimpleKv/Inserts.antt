-- ===== src/Examples/SimpleKv/Inserts.antt =====
-- `simple_kv::put` of simplekv_puddles.hh with a new key.
use snapshot_public.Prelude.{
  ℕ, ◌+◌, ◌-◌, ◌%◌, ◌≤◌, ◌<◌, ◌≡◌, ◌≢◌, refl, ap, sym, subst, ◌∙◌, true, false, none, some, inl,
  inr, List, [], ◌∷◌, ◌++◌, ◌==◌, length, All, arith, Bool-cases, Option-cases, All-append_last,
}
use snapshot_public.Containers.Views.{IsVector, view, push_back-view}
use snapshot_public.Containers.Strings.{
  ObjString, init_string, eq_string, init_string-short, init_string-long,
}
use snapshot_public.Examples.SimpleKv.{
  Entry, SimpleKv, Reservoir, put_bucket, find_key, get, insert, put,
}
use snapshot_public.Examples.SimpleKv.Finding.{
  IsReservoir, IsKv, find_key-append_other, find_key-append_self, find_key-place, index-push_back,
  index-push_back_last, put_bucket_all, more_places,
}

module _ (hash : List ℕ → ℕ) (n : ℕ) where
  -- What `insert` does: one value more, and one entry more in the bucket of the key.
  record IsInserted (kv : SimpleKv) (key : List ℕ) (val : ℕ) (s : ObjString) (kv' : SimpleKv)
      : Type 0 where
    more : view kv'.values ≡ view kv.values ++ val ∷ []
    counted : kv'.values.size ≡ kv.values.size + 1
    entry :
        view (kv'.buckets (hash key % n))
        ≡ view (kv.buckets (hash key % n)) ++ (s, kv.values.size) ∷ []
    others : (i : ℕ) → i ≢ hash key % n → kv'.buckets i ≡ kv.buckets i

  insert-IsInserted :
      (res : Reservoir) (kv : SimpleKv) (key : List ℕ) (val : ℕ) (s : ObjString)
      → IsReservoir res
      → IsKv kv
      → init_string res.chars key ≡ some s
      → (kv' : SimpleKv) × (insert hash n res kv key val ≡ some kv')
        × IsKv kv'
        × IsInserted kv key val s kv'
  unfolding insert
  insert-IsInserted res kv key val s r w made =
      let b = hash key % n in
      let (vs, pushed, vs_ok, vs_view, vs_size) =
        push_back-view res.numbers kv.values val r.numbers w.values in
      let (bk, put_in, bk_ok, bk_view, bk_size) =
        push_back-view res.entries (kv.buckets b) (s, vs.size - 1) r.entries (w.buckets b) in
      let last : vs.size - 1 ≡ kv.values.size = omega (arith, vs_size) in
      let here : put_bucket kv.buckets b bk b ≡ bk = ground arith in
      let away : (i : ℕ) → i ≢ b → put_bucket kv.buckets b bk i ≡ kv.buckets i =
        λ i ne. ground arith in
      (
        record kv { values = vs; buckets = put_bucket kv.buckets b bk },
        rw (pushed, made, put_in) refl,
        record {
          buckets = λ i. put_bucket_all IsVector kv.buckets b bk i bk_ok (w.buckets i);
          values = vs_ok;
          places = λ i.
              put_bucket_all (λ v. All (λ (e : Entry). e.1 < vs.size) (view v)) kv.buckets b bk i
                (subst (All (λ (e : Entry). e.1 < vs.size)) (sym bk_view) (
                  All-append_last (λ (e : Entry). e.1 < vs.size) (view (kv.buckets b)) _
                    (more_places (view (kv.buckets b)) kv.values.size vs.size
                      (omega (arith, vs_size)) (w.places b))
                    (omega (arith, vs_size))))
                (more_places (view (kv.buckets i)) kv.values.size vs.size (omega (arith, vs_size))
                  (w.places i));
        },
        record {
          more = vs_view;
          counted = vs_size;
          entry = ap view here ∙ bk_view ∙ ap (λ k. view (kv.buckets b) ++ (s, k) ∷ []) last;
          others = away;
        },
      )

  found_same :
      (kv kv' : SimpleKv) (key : List ℕ) (val : ℕ) (s : ObjString) (key' : List ℕ) (b' : ℕ)
      → IsInserted kv key val s kv'
      → eq_string s key' ≡ false
      → find_key (view (kv'.buckets b')) key' ≡ find_key (view (kv.buckets b')) key'
  found_same kv kv' key val s key' b' ins differ = elim (Bool-cases (b' == hash key % n)) [
    | inl e ↦
        let same : hash key % n ≡ b' = ground arith in
        subst (λ i. find_key (view (kv'.buckets i)) key' ≡ find_key (view (kv.buckets i)) key') same
          (ap (λ es. find_key es key') ins.entry
            ∙ find_key-append_other (view (kv.buckets (hash key % n))) (s, kv.values.size) key'
                differ)
    | inr e ↦ ap (λ v. find_key (view v) key') (ins.others b' (ground arith))
  ]

  -- A key whose entry was not touched keeps its value.
  inserted_other :
      (kv kv' : SimpleKv) (key : List ℕ) (val : ℕ) (s : ObjString) (key' : List ℕ)
      → IsKv kv
      → IsKv kv'
      → IsInserted kv key val s kv'
      → eq_string s key' ≡ false
      → get hash n kv' key' ≡ get hash n kv key'
  unfolding get
  inserted_other kv kv' key val s key' w w' ins differ =
      let b' = hash key' % n in
      let same = found_same kv kv' key val s key' b' ins differ in
      elim (Option-cases (find_key (view (kv.buckets b')) key')) [
        | inl e ↦ rw (same, e) refl
        | inr (place, e) ↦
            rw (same, e)
              (index-push_back kv.values kv'.values val place w.values w'.values ins.more
                ins.counted
                (find_key-place (view (kv.buckets b')) key' kv.values.size place (w.places b') e))
      ]

  inserted_self :
      (kv kv' : SimpleKv) (key : List ℕ) (val : ℕ) (s : ObjString)
      → IsKv kv
      → IsInserted kv key val s kv'
      → find_key (view (kv.buckets (hash key % n))) key ≡ none
      → eq_string s key ≡ true
      → get hash n kv' key ≡ some val
  unfolding get
  inserted_self kv kv' key val s w ins new same =
      let found : find_key (view (kv'.buckets (hash key % n))) key ≡ some kv.values.size =
        ap (λ es. find_key es key) ins.entry
        ∙ find_key-append_self (view (kv.buckets (hash key % n))) (s, kv.values.size) key new
            same in
      rw found (index-push_back_last kv.values kv'.values val w.values ins.more ins.counted)

  put_new :
      (res : Reservoir) (kv : SimpleKv) (key : List ℕ) (val : ℕ)
      → find_key (view (kv.buckets (hash key % n))) key ≡ none
      → put hash n res kv key val ≡ insert hash n res kv key val
  unfolding put
  put_new res kv key val e = rw (put, e) refl

  -- A new key is put and found: on a map in order, with memory for it, and for a key of at most 23
  -- characters that is in no entry of its bucket, `put` returns; `get` then finds the value under
  -- the key, and under every other key what it found before, and the map is in order.
  pub get-put_new :
      (res : Reservoir) (kv : SimpleKv) (key : List ℕ) (val : ℕ)
      → IsReservoir res
      → IsKv kv
      → length key ≤ 23
      → find_key (view (kv.buckets (hash key % n))) key ≡ none
      → (kv' : SimpleKv) × (put hash n res kv key val ≡ some kv')
        × (get hash n kv' key ≡ some val)
        × ((key' : List ℕ) → key' ≢ key → get hash n kv' key' ≡ get hash n kv key')
        × IsKv kv'
  get-put_new res kv key val r w short new =
      let (s, made, equal) = init_string-short res.chars key short in
      let (kv', done, w', ins) = insert-IsInserted res kv key val s r w made in
      (
        kv',
        put_new res kv key val new ∙ done,
        inserted_self kv kv' key val s w ins new ((equal key).1 refl),
        λ key' ne.
            inserted_other kv kv' key val s key' w w' ins (elim (Bool-cases (eq_string s key')) [
              | inl t ↦ absurd (ne ((equal key').0 t))
              | inr f ↦ f
            ]),
        w',
      )

  -- A long key is put but not found: on a map in order, with memory for it, and for a key of more
  -- than 23 characters that is found in no entry of its bucket, `put` returns, but `get` still
  -- finds nothing under the key.
  pub get-put_long :
      (res : Reservoir) (kv : SimpleKv) (key : List ℕ) (val : ℕ)
      → IsReservoir res
      → IsKv kv
      → 23 < length key
      → find_key (view (kv.buckets (hash key % n))) key ≡ none
      → (kv' : SimpleKv) × (put hash n res kv key val ≡ some kv')
        × (get hash n kv' key ≡ none)
        × IsKv kv'
  unfolding get eq_string
  get-put_long res kv key val r w long new =
      let (s, made, sz) = init_string-long res.chars key r.chars long in
      let (kv', done, w', ins) = insert-IsInserted res kv key val s r w made in
      let differ : eq_string s key ≡ false = ground (arith, sz) in
      let same = found_same kv kv' key val s key (hash key % n) ins differ in
      (kv', put_new res kv key val new ∙ done, rw (same, new) refl, w')
