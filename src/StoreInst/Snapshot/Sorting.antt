-- ===== src/StoreInst/Snapshot/Sorting.antt =====
-- What a permutation of a log's entries keeps.
use mathlib.Core.List.{Permᴰ}
use snapshot_public.Prelude.{
  ◌≡◌, sym, subst, arith, inl, inr, List, ltb, length, Bool-cases, Any, All,
}
use snapshot_public.StoreInst.Log.{LeanEntry, Log, set_state, set_log_offset, flush_all}
use snapshot_public.StoreInst.Snapshot.{Sorter, log_list, begin_log}

module _ {ℓ} {A : Type ℓ} (P : A → Type 0) where
  All-perm_d : {xs ys : List A} → Permᴰ xs ys → All P ys → All P xs
  All-perm_d Permᴰ.nil a = tt
  All-perm_d (Permᴰ.cons e p) a = (subst P (sym e) a.0, All-perm_d p a.1)
  All-perm_d (Permᴰ.swap e f) a = (subst P (sym e) a.1.0, (subst P (sym f) a.0, a.1.1))
  All-perm_d (Permᴰ.trans p q) a = All-perm_d p (All-perm_d q a)

  Any-perm_d : {xs ys : List A} → Permᴰ xs ys → Any P ys → Any P xs
  Any-perm_d Permᴰ.nil w = w
  Any-perm_d (Permᴰ.cons e p) (inl w) = inl (subst P (sym e) w)
  Any-perm_d (Permᴰ.cons e p) (inr w) = inr (Any-perm_d p w)
  Any-perm_d (Permᴰ.swap e f) (inl w) = inr (inl (subst P (sym f) w))
  Any-perm_d (Permᴰ.swap e f) (inr (inl w)) = inl (subst P (sym e) w)
  Any-perm_d (Permᴰ.swap e f) (inr (inr w)) = inr (inr w)
  Any-perm_d (Permᴰ.trans p q) w = Any-perm_d p (Any-perm_d q w)

entries-begin_log : (l : Log) → (begin_log l).entries ≡ l.entries
unfolding begin_log set_state set_log_offset flush_all
entries-begin_log l = ground arith

module _ (P : LeanEntry → Type 0) (sorter : Sorter) (l : Log) where
  pub All-log_list : All P l.entries → All P (log_list sorter (begin_log l))
  unfolding log_list
  All-log_list a = rw (entries-begin_log l) (elim (Bool-cases (ltb 10 (length l.entries))) [
    | inl long ↦ rw long (All-perm_d P (sorter.sort-perm l.entries) a)
    | inr short ↦ rw short a
  ])

  pub Any-log_list : Any P l.entries → Any P (log_list sorter (begin_log l))
  unfolding log_list
  Any-log_list a = rw (entries-begin_log l) (elim (Bool-cases (ltb 10 (length l.entries))) [
    | inl long ↦ rw long (Any-perm_d P (sorter.sort-perm l.entries) a)
    | inr short ↦ rw short a
  ])
