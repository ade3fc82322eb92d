-- ===== src/Witnesses/MapRuns.antt =====
-- A map of two buckets with one key, to which keys are put.
use snapshot_public.Prelude.{
  ℕ, zero, suc, ◌%◌, ◌≡◌, ◌≢◌, refl, ap, none, some, List, [], ◌∷◌, length, arith,
}
use snapshot_public.Containers.Vector.{Vector}
use snapshot_public.Containers.Views.{view}
use snapshot_public.Containers.Strings.{sso, eq_string, same_chars, size, c_str}
use snapshot_public.Examples.SimpleKv.{Entry, SimpleKv, Reservoir, find_key, get, put}
use snapshot_public.Examples.SimpleKv.Finding.{IsReservoir, IsKv}
use snapshot_public.Examples.SimpleKv.Inserts.{get-put_new, get-put_long}
use snapshot_public.Examples.SimpleKv.Updates.{get-put_present}

abbrev fill {ℓ} : {A : Type ℓ} → A → ℕ → List A
fill x zero = []
fill x (suc n) = x ∷ fill x n

length-fill {ℓ} : {A : Type ℓ} (x : A) (n : ℕ) → length (fill x n) ≡ n
length-fill x zero = refl
length-fill x (suc n) = ap suc (length-fill x n)

abbrev reservoir : Reservoir
reservoir = record {
  chars = λ n. some (fill 0 n);
  numbers = λ n. some (fill 0 n);
  entries = λ n. some (fill (sso 0 [], 0) n);
}

reservoir-IsReservoir : IsReservoir reservoir
reservoir-IsReservoir = record {
  chars = λ n. (fill 0 n, refl, length-fill 0 n);
  numbers = λ n. (fill 0 n, refl, length-fill 0 n);
  entries = λ n. (fill (sso 0 [], 0) n, refl, length-fill (sso 0 [], 0) n);
}

-- The key "a" has the value 70 at place 0, and the array of values has room for four.
abbrev bucket : Vector Entry
bucket = record { size = 1; content = (sso 1 (97 ∷ 0 ∷ []), 0) ∷ (sso 0 [], 0) ∷ []; capacity = 2 }

abbrev kv : SimpleKv
kv = record {
  buckets = λ b. bucket;
  values = record { size = 1; content = 70 ∷ 0 ∷ 0 ∷ 0 ∷ []; capacity = 4 };
}

kv-IsKv : IsKv kv
kv-IsKv = record {
  buckets = λ b. record { whole = refl; room = omega arith };
  values = record { whole = refl; room = omega arith };
  places = λ b. (omega arith, tt);
}

get-put_new_example :
    (kv' : SimpleKv) × (put length 2 reservoir kv (98 ∷ []) 71 ≡ some kv')
    × (get length 2 kv' (98 ∷ []) ≡ some 71)
    × ((key' : List ℕ) → key' ≢ 98 ∷ [] → get length 2 kv' key' ≡ get length 2 kv key')
    × IsKv kv'
unfolding find_key eq_string same_chars size c_str
get-put_new_example =
    get-put_new length 2 reservoir kv (98 ∷ []) 71 reservoir-IsReservoir kv-IsKv (omega arith) refl

abbrev long_key : List ℕ
long_key = fill 99 24

get-put_long_example :
    (kv' : SimpleKv) × (put length 2 reservoir kv long_key 71 ≡ some kv')
    × (get length 2 kv' long_key ≡ none)
    × IsKv kv'
unfolding find_key eq_string same_chars size c_str
get-put_long_example =
    get-put_long length 2 reservoir kv long_key 71 reservoir-IsReservoir kv-IsKv (omega arith) refl

get-put_present_example :
    (kv' : SimpleKv) × (put length 2 reservoir kv (97 ∷ []) 3 ≡ some kv')
    × (get length 2 kv' (97 ∷ []) ≡ get length 2 kv (97 ∷ []))
    × ((key' : List ℕ)
        → find_key (view (kv.buckets (length key' % 2))) key' ≡ some 3
        → get length 2 kv' key' ≡ some 0)
    × IsKv kv'
unfolding find_key eq_string same_chars size c_str
get-put_present_example =
    get-put_present length 2 reservoir kv (97 ∷ []) 3 0 kv-IsKv refl (omega arith) (omega arith)
