-- ===== src/Pass/Covers.antt =====
-- A function that `analyseFunc` of storeinst.cc has compiled, run on the library.
use snapshot_public.Prelude.{
  ℕ, ◌+◌, ◌≤◌, ◌≡◌, refl, sym, subst, ◌⊎◌, inl, inr, true, some, List, [], ◌∷◌, get_elem?, All, Any,
  arith, Bool-cases, Option-cases, All-get,
}
use snapshot_public.StoreInst.Memory.{store_le, store_le_outside}
use snapshot_public.StoreInst.Snapshot.{Machine}
use snapshot_public.StoreInst.Stores.{check_memory, put_mem, instrumented_store, exec, scalar}
use snapshot_public.StoreInst.Stores.Logged.{IsLogged, IsFitting, unlogged_step}
use snapshot_public.StoreInst.Stores.Run.{exec-IsLogged}
use snapshot_public.Pass.Instrument.{
  Inst, store, alloca, call_check_memory, other, PassState, Alias, writes_to_stack_location,
  analyse_store, analyse_block, analyse_func,
}
use snapshot_public.Pass.Blocks.{
  OnAllocas, analyse_blocks-get, on_stack_cases, analyse_store-values, analyse_store_skips,
  analyse_store_checks,
}
use snapshot_public.Pass.Exec.{Values, Visit, exec_inst, exec_block, exec_visit, exec_path}
use snapshot_public.Pass.Steps.{
  Same, Same-fits, check_memory-mem, check_memory-Same, exec_block-append, exec_visit-none,
  exec_visit-some,
}

-- A stack location is outside the tracked memory.
abbrev pub IsOutside : Machine → Values → ℕ → Type 0
IsOutside m vals a = (vals a + 8 ≤ m.rt.start_addr) ⊎ (m.rt.end_addr ≤ vals a)

-- What the program may do: its stores are of at most eight bytes and fit, and it does not call
-- `checkMemory` itself.
abbrev pub IsFine : Machine → ℕ → Values → Inst → Type 0
IsFine m thread vals (store ptr bytes val) = (bytes ≤ 8) × IsFitting m thread (vals ptr) 8
IsFine m thread vals (call_check_memory ptr) = ⊥
IsFine m thread vals _ = Unit

-- Pointers that must alias are equal.
abbrev pub IsSound : Alias → Values → Type 0
IsSound aa vals = (a b : ℕ) → aa a b ≡ true → vals a ≡ vals b

module _ (m0 : Machine) (thread : ℕ) (vals : Values) (aa : Alias) (sound : IsSound aa vals) where
  abbrev Kept : Machine → Type 0
  Kept m = IsLogged m × Same m0 m

  Kept-checked :
      (m : Machine) (ptr bytes val : ℕ)
      → Kept m
      → (bytes ≤ 8) × IsFitting m0 thread (vals ptr) 8
      → Kept (exec_inst (check_memory m thread (vals ptr)) thread vals (store ptr bytes val))
  unfolding exec_inst exec instrumented_store put_mem
  Kept-checked m ptr bytes val (inv, s) (short, fits) =
      let p = vals ptr in
      let s' = check_memory-Same m0 m thread p s in
      (
        subst
            (λ mem. IsLogged (put_mem (check_memory m thread p) (store_le bytes mem p (vals val))))
            (sym (check_memory-mem m thread p))
            (exec-IsLogged m thread (scalar p bytes (vals val)) inv
              (short, Same-fits m0 m thread p 8 s fits)),
        record { start = s'.start; end = s'.end; back = s'.back; threads = s'.threads },
      )

  Kept-skipped :
      (m : Machine) (ptr bytes val : ℕ)
      → Kept m
      → (bytes ≤ 8) × IsFitting m0 thread (vals ptr) 8
      → IsOutside m0 vals ptr
      → Kept (exec_inst m thread vals (store ptr bytes val))
  unfolding exec_inst put_mem
  Kept-skipped m ptr bytes val (inv, s) (short, fits) out = (
    unlogged_step m inv thread (vals ptr) 8 (Same-fits m0 m thread (vals ptr) 8 s fits)
        (store_le bytes m.mem (vals ptr) (vals val)) bytes short
        (λ x o. store_le_outside bytes m.mem (vals ptr) (vals val) x o)
        (ground (arith, s.start, s.end)),
    record { start = s.start; end = s.end; back = s.back; threads = s.threads },
  )

  -- A pointer that is taken for a stack location is outside the tracked memory.
  skipped-IsOutside :
      (ptr : ℕ) (locs : List ℕ)
      → All (IsOutside m0 vals) locs
      → Any (λ loc. (loc ≡ ptr) ⊎ (aa loc ptr ≡ true)) locs
      → IsOutside m0 vals ptr
  skipped-IsOutside ptr [] a w = absurd w
  skipped-IsOutside ptr (loc ∷ locs) a (inl (inl e)) = subst (IsOutside m0 vals) e a.0
  skipped-IsOutside ptr (loc ∷ locs) a (inl (inr e)) =
      let same : vals loc ≡ vals ptr = sound loc ptr e in
      subst (λ v. (v + 8 ≤ m0.rt.start_addr) ⊎ (m0.rt.end_addr ≤ v)) same a.0
  skipped-IsOutside ptr (loc ∷ locs) a (inr w) = skipped-IsOutside ptr locs a.1 w

  Kept-store :
      (m : Machine) (ptr bytes val : ℕ) (p : PassState)
      → Kept m
      → (bytes ≤ 8) × IsFitting m0 thread (vals ptr) 8
      → All (IsOutside m0 vals) p.stack_values
      → Kept (exec_block m thread vals (analyse_store aa ptr bytes val p).0)
  unfolding exec_block exec_inst
  Kept-store m ptr bytes val p k fine locs =
      elim (Bool-cases (writes_to_stack_location aa ptr p.stack_values p).0) [
        | inl e ↦
            subst (λ is. Kept (exec_block m thread vals is))
              (sym (analyse_store_skips aa ptr bytes val p e))
              (Kept-skipped m ptr bytes val k fine (
                skipped-IsOutside ptr p.stack_values locs
                  (on_stack_cases aa ptr p.stack_values p e)))
        | inr e ↦
            subst (λ is. Kept (exec_block m thread vals is))
              (sym (analyse_store_checks aa ptr bytes val p e))
              (Kept-checked m ptr bytes val k fine)
      ]

  Kept-block :
      (is : List Inst) (m : Machine) (p : PassState)
      → Kept m
      → All (IsFine m0 thread vals) is
      → All (OnAllocas (IsOutside m0 vals)) is
      → All (IsOutside m0 vals) p.stack_values
      → Kept (exec_block m thread vals (analyse_block aa is p).0)
  unfolding analyse_block exec_block exec_inst
  Kept-block [] m p k fine out locs = k
  Kept-block (store ptr bytes val ∷ is) m p k fine out locs =
      subst Kept
        (sym (
          exec_block-append m thread vals (analyse_store aa ptr bytes val p).0
            (analyse_block aa is (analyse_store aa ptr bytes val p).1).0))
        (Kept-block is (exec_block m thread vals (analyse_store aa ptr bytes val p).0)
          (analyse_store aa ptr bytes val p).1 (Kept-store m ptr bytes val p k fine.0 locs) fine.1
          out.1 (rw (analyse_store-values (IsOutside m0 vals) aa ptr bytes val p) locs))
  Kept-block (alloca a ∷ is) m p k fine out locs = Kept-block is m _ k fine.1 out.1 (out.0, locs)
  Kept-block (call_check_memory ptr ∷ is) m p k fine out locs = absurd fine.0
  Kept-block (other i ∷ is) m p k fine out locs = Kept-block is m p k fine.1 out.1 locs

-- What a visit needs: alias analysis is right about its values, the allocas of the function are
-- outside the tracked memory, and the instructions of the block are fine.
pub record IsVisit (m : Machine) (aa : Alias) (blocks : List (List Inst)) (v : Visit) : Type 0 where
  pub sound : IsSound aa v.2
  pub stack : All (All (OnAllocas (IsOutside m v.2))) blocks
  pub fine : (b : List Inst) → get_elem? blocks v.1 ≡ some b → All (IsFine m v.0 v.2) b

module _ (m0 : Machine) (aa : Alias) (blocks : List (List Inst)) (p : PassState) where
  abbrev compiled : List (List Inst)
  compiled = (analyse_func aa blocks p).0

  Kept-visit :
      (v : Visit) (m : Machine)
      → IsLogged m × Same m0 m
      → IsVisit m0 aa blocks v
      → IsLogged (exec_visit compiled v m) × Same m0 (exec_visit compiled v m)
  unfolding analyse_func
  Kept-visit v m k w = elim (Option-cases (get_elem? compiled v.1)) [
    | inl e ↦ rw (exec_visit-none compiled v m e) k
    | inr (b', e) ↦
        let (b, q, found, same, locs) =
          analyse_blocks-get (IsOutside m0 v.2) aa blocks (record p { stack_values = [] }) v.1 b'
            w.stack tt e in
        rw (exec_visit-some compiled v m b' e, same)
          (Kept-block m0 v.0 v.2 aa w.sound b m q k (w.fine b found)
            (All-get (All (OnAllocas (IsOutside m0 v.2))) blocks v.1 b w.stack found) locs)
  ]

  Kept-path :
      (path : List Visit) (m : Machine)
      → IsLogged m
      → Same m0 m
      → All (IsVisit m0 aa blocks) path
      → IsLogged (exec_path (analyse_func aa blocks p).0 path m)
  unfolding exec_path
  Kept-path [] m inv s ok = inv
  Kept-path (v ∷ vs) m inv s ok =
      let (inv', s') = Kept-visit v m (inv, s) ok.0 in
      Kept-path vs (exec_visit compiled v m) inv' s' ok.1

-- The compiled program keeps the tracked memory covered: whatever blocks of a function that
-- `analyseFunc` has compiled the threads go through, and in whatever order, a tracked memory that
-- begins at the address 512 or later and is covered at first, with the log and the tracking on and
-- the logged ranges in their place in the backing file, is so behind them; in each visit of a block
-- the thread has a log, pointers that must alias are equal, the allocas of the function are eight
-- bytes or more before the tracked memory or behind it, every store is of eight bytes at most, and
-- the eight bytes from its address on either begin in or behind the tracked memory or end before
-- it, even where the store writes fewer, they do not come within 512 bytes of the end of the
-- addresses, nor their place in the backing file, and the program itself does not call
-- `checkMemory`; no instruction but a store changes memory.
pub compiled-IsLogged :
    (aa : Alias) (blocks : List (List Inst)) (p : PassState) (path : List Visit) (m : Machine)
    → IsLogged m
    → All (IsVisit m aa blocks) path
    → IsLogged (exec_path (analyse_func aa blocks p).0 path m)
compiled-IsLogged aa blocks p path m inv ok =
    Kept-path m aa blocks p path m inv
      (record { start = refl; end = refl; back = refl; threads = refl }) ok
