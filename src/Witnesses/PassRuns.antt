-- ===== src/Witnesses/PassRuns.antt =====
-- A function with a store to its stack and one to the tracked page of SnapshotRuns.
use snapshot_public.Prelude.{
  ◌⊎◌, if◌then◌else◌, ℕ, ◌+◌, ◌≡◌, refl, inl, inr, false, some, List, [], ◌∷◌, ◌==◌, get_elem?,
  subst, All, arith,
}
use snapshot_public.StoreInst.Snapshot.{default_start}
use snapshot_public.StoreInst.Stores.Logged.{IsLogged, IsFitting}
use snapshot_public.Pass.Instrument.{
  Inst, store, alloca, call_check_memory, other, PassState, Alias, analyse_func, analyse_blocks,
  analyse_block, analyse_store, writes_to_stack_location,
}
use snapshot_public.Pass.Exec.{Values, exec_path}
use snapshot_public.Pass.Covers.{IsFine, IsVisit, compiled-IsLogged}
use snapshot_public.Witnesses.SnapshotRuns.{synced, synced-IsLogged}

-- Value 0 is an alloca, and value 1 points to the tracked page.
abbrev blocks : List (List Inst)
blocks = (alloca 0 ∷ store 0 8 2 ∷ other 3 ∷ store 1 4 2 ∷ []) ∷ []

abbrev no_alias : Alias
no_alias a b = false

abbrev fresh : PassState
fresh = record {
  mod_count = 0;
  skip_count = 0;
  aliased_location_found = 0;
  exact_location_match_found = 0;
  stack_values = [];
}

abbrev vals : Values
vals v = if v == 0 then 4096 else default_start + 64

blocks_compiled :
    (analyse_func no_alias blocks fresh).0
    ≡ (alloca 0 ∷ store 0 8 2 ∷ other 3 ∷ call_check_memory 1 ∷ store 1 4 2 ∷ []) ∷ []
unfolding analyse_func analyse_blocks analyse_block analyse_store writes_to_stack_location
blocks_compiled = refl

store_fits : (ptr : ℕ) → (ptr ≡ 4096) ⊎ (ptr ≡ default_start + 64) → IsFitting synced 1 ptr 8
store_fits ptr (inl e) = record {
  exists = omega arith;
  apart = omega arith;
  room = omega arith;
  backing_room = omega arith;
}
store_fits ptr (inr e) = record {
  exists = omega arith;
  apart = omega arith;
  room = omega arith;
  backing_room = omega arith;
}

fine : (b : List Inst) → get_elem? blocks 0 ≡ some b → All (IsFine synced 1 vals) b
fine b e =
    let same : (alloca 0 ∷ store 0 8 2 ∷ other 3 ∷ store 1 4 2 ∷ []) ≡ b = cc in
    subst (All (IsFine synced 1 vals)) same (
      tt,
      (
        (omega arith, store_fits 4096 (inl refl)),
        (tt, ((omega arith, store_fits (default_start + 64) (inr refl)), tt)),
      ),
    )

visited : IsVisit synced no_alias blocks (1, 0, vals)
visited = record {
  sound = λ a b e. absurd (cc e);
  stack = ((inl (omega arith), (tt, (tt, (tt, tt)))), tt);
  fine = fine;
}

compiled-IsLogged_example :
    IsLogged
      (exec_path (analyse_func no_alias blocks fresh).0 ((1, 0, vals) ∷ (1, 0, vals) ∷ []) synced)
compiled-IsLogged_example =
    compiled-IsLogged no_alias blocks fresh ((1, 0, vals) ∷ (1, 0, vals) ∷ []) synced
      synced-IsLogged (visited, (visited, tt))
