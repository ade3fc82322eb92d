-- ===== src/Pass/Blocks.antt =====
-- The blocks that `analyseFunc` of storeinst.cc leaves, and the stack locations that it knows there.
use snapshot_public.Prelude.{
  ℕ, zero, suc, ◌≡◌, refl, sym, ◌⊎◌, inl, inr, true, false, some, List, [], ◌∷◌, ◌==◌, get_elem?,
  All, Any, arith, Bool-cases,
}
use snapshot_public.Pass.Instrument.{
  Inst, store, alloca, call_check_memory, other, PassState, Alias, writes_to_stack_location,
  analyse_store, analyse_block, analyse_blocks,
}

-- Every stack location of a block satisfies `Q`.
abbrev pub OnAllocas : (Q : ℕ → Type 0) → Inst → Type 0
OnAllocas Q (alloca a) = Q a
OnAllocas Q _ = Unit

module _ (Q : ℕ → Type 0) (aa : Alias) where
  same_values :
      (ptr : ℕ) (locs : List ℕ) (p : PassState)
      → (writes_to_stack_location aa ptr locs p).1.stack_values ≡ p.stack_values
  unfolding writes_to_stack_location
  same_values ptr [] p = refl
  same_values ptr (loc ∷ locs) p = ground (arith, same_values ptr locs p)

  pub analyse_store-values :
      (ptr bytes val : ℕ) (p : PassState)
      → (analyse_store aa ptr bytes val p).1.stack_values ≡ p.stack_values
  unfolding analyse_store
  analyse_store-values ptr bytes val p = ground (arith, same_values ptr p.stack_values p)

  analyse_block-values :
      (b : List Inst) (p : PassState)
      → All (OnAllocas Q) b
      → All Q p.stack_values
      → All Q (analyse_block aa b p).1.stack_values
  unfolding analyse_block
  analyse_block-values [] p a h = h
  analyse_block-values (store ptr bytes val ∷ is) p a h =
      analyse_block-values is (analyse_store aa ptr bytes val p).1 a.1
        (rw (analyse_store-values ptr bytes val p) h)
  analyse_block-values (alloca ai ∷ is) p a h = analyse_block-values is _ a.1 (a.0, h)
  analyse_block-values (call_check_memory ptr ∷ is) p a h = analyse_block-values is p a.1 h
  analyse_block-values (other i ∷ is) p a h = analyse_block-values is p a.1 h

  -- Each block of the result comes from the block at its place, with known stack locations.
  pub analyse_blocks-get :
      (bs : List (List Inst)) (p : PassState) (i : ℕ) (b' : List Inst)
      → All (All (OnAllocas Q)) bs
      → All Q p.stack_values
      → get_elem? (analyse_blocks aa bs p).0 i ≡ some b'
      → (b : List Inst) × (q : PassState) × (get_elem? bs i ≡ some b)
        × (b' ≡ (analyse_block aa b q).0)
        × All Q q.stack_values
  unfolding analyse_blocks
  analyse_blocks-get [] p i b' a h e = absurd (cc e)
  analyse_blocks-get (b ∷ bs) p zero b' a h e =
      (b, p, refl, (let same : (analyse_block aa b p).0 ≡ b' = cc in sym same), h)
  analyse_blocks-get (b ∷ bs) p (suc i) b' a h e =
      analyse_blocks-get bs (analyse_block aa b p).1 i b' a.1 (analyse_block-values b p a.0 h) e

-- A store through a pointer that is taken for a stack location has the pointer of one, or of one
-- that it must alias.
pub on_stack_cases :
    (aa : Alias) (ptr : ℕ) (locs : List ℕ) (p : PassState)
    → (writes_to_stack_location aa ptr locs p).0 ≡ true
    → Any (λ loc. (loc ≡ ptr) ⊎ (aa loc ptr ≡ true)) locs
unfolding writes_to_stack_location
on_stack_cases aa ptr [] p e = absurd (cc e)
on_stack_cases aa ptr (loc ∷ locs) p e = elim (Bool-cases (loc == ptr)) [
  | inl same ↦ inl (inl (ground arith))
  | inr differ ↦ elim (Bool-cases (aa loc ptr)) [
    | inl must ↦ inl (inr must)
    | inr may ↦ inr (on_stack_cases aa ptr locs p (ground arith))
  ]
]

pub analyse_store_skips :
    (aa : Alias) (ptr bytes val : ℕ) (p : PassState)
    → (writes_to_stack_location aa ptr p.stack_values p).0 ≡ true
    → (analyse_store aa ptr bytes val p).0 ≡ store ptr bytes val ∷ []
unfolding analyse_store
analyse_store_skips aa ptr bytes val p e = rw (analyse_store, e) refl

pub analyse_store_checks :
    (aa : Alias) (ptr bytes val : ℕ) (p : PassState)
    → (writes_to_stack_location aa ptr p.stack_values p).0 ≡ false
    → (analyse_store aa ptr bytes val p).0 ≡ call_check_memory ptr ∷ store ptr bytes val ∷ []
unfolding analyse_store
analyse_store_checks aa ptr bytes val p e = rw (analyse_store, e) refl
