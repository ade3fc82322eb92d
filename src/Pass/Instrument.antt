-- ===== src/Pass/Instrument.antt =====
-- storeinst.cc: `analyseFunc`, what it asks of alias analysis, and the pass over a module. A value
-- of the program is a number. LLVM is not modelled: of the instructions the pass only tells stores
-- and allocas, and alias analysis is a parameter, `true` for MustAlias.
use snapshot_public.Prelude.{
  ℕ, ◌+◌, Bool, true, false, not, List, [], ◌∷◌, ◌++◌, ◌==◌, if◌then◌else◌,
}

-- An instruction: a store of so many bytes of a value through a pointer, an alloca, a call of
-- `checkMemory` on a pointer, or any other.
pub data Inst : Type 0 where
  store : (ptr bytes val : ℕ) → Inst
  alloca : ℕ → Inst
  call_check_memory : ℕ → Inst
  other : ℕ → Inst

-- A function: whether it is annotated with CXLBUF_DONT_AUTO_LOG, and its basic blocks.
pub record Function : Type 0 where
  pub is_annotated : Bool
  pub blocks : List (List Inst)

-- The counters of the pass and, within a function, `stackValues`.
pub record PassState : Type 0 where
  pub mod_count : ℕ
  pub skip_count : ℕ
  pub aliased_location_found : ℕ
  pub exact_location_match_found : ℕ
  pub stack_values : List ℕ

-- `AAResults::alias(a, b) == MustAlias`
abbrev pub Alias : Type 0
Alias = ℕ → ℕ → Bool

-- `writesToStackLocation`: the result and the counters.
unfoldable pub writes_to_stack_location : Alias → ℕ → List ℕ → PassState → Bool × PassState
writes_to_stack_location aa ptr [] p = (false, p)
writes_to_stack_location aa ptr (loc ∷ locs) p =
    let rest = writes_to_stack_location aa ptr locs p in
    if loc == ptr
    then (true, record p { exact_location_match_found = p.exact_location_match_found + 1 })
    else if aa loc ptr
    then (true, record p { aliased_location_found = p.aliased_location_found + 1 })
    else rest

-- A store in `analyseFunc`: the instructions that stand for it, and the pass.
unfoldable pub analyse_store : Alias → (ptr bytes val : ℕ) → PassState → List Inst × PassState
analyse_store aa ptr bytes val p =
    let (on_stack, p') = writes_to_stack_location aa ptr p.stack_values p in
    if not on_stack
    then (
      call_check_memory ptr ∷ store ptr bytes val ∷ [],
      record p' { mod_count = p'.mod_count + 1 },
    )
    else (store ptr bytes val ∷ [], record p' { skip_count = p'.skip_count + 1 })

-- The loops of `analyseFunc`: over the instructions of a block, and over the blocks.
unfoldable pub analyse_block : Alias → List Inst → PassState → List Inst × PassState
analyse_block aa [] p = ([], p)
analyse_block aa (store ptr bytes val ∷ is) p =
    let (is', p') = analyse_store aa ptr bytes val p in
    let (rest, p'') = analyse_block aa is p' in (is' ++ rest, p'')
analyse_block aa (alloca ai ∷ is) p =
    let (rest, p') = analyse_block aa is (record p { stack_values = ai ∷ p.stack_values }) in
    (alloca ai ∷ rest, p')
analyse_block aa (call_check_memory ptr ∷ is) p =
    let (rest, p') = analyse_block aa is p in (call_check_memory ptr ∷ rest, p')
analyse_block aa (other i ∷ is) p = let (rest, p') = analyse_block aa is p in (other i ∷ rest, p')

unfoldable pub analyse_blocks : Alias → List (List Inst) → PassState → List (List Inst) × PassState
analyse_blocks aa [] p = ([], p)
analyse_blocks aa (b ∷ bs) p =
    let (b', p') = analyse_block aa b p in
    let (bs', p'') = analyse_blocks aa bs p' in (b' ∷ bs', p'')

-- `analyseFunc`
unfoldable pub analyse_func : Alias → List (List Inst) → PassState → List (List Inst) × PassState
analyse_func aa bs p = analyse_blocks aa bs (record p { stack_values = [] })

-- The loop of `HelloWorld::run` over the functions, each with its alias analysis.
unfoldable pub run_pass : List (Alias × Function) → PassState → List Function × PassState
run_pass [] p = ([], p)
run_pass ((aa, f) ∷ fs) p =
    let (bs, p') = if not f.is_annotated then analyse_func aa f.blocks p else (f.blocks, p) in
    let (fs', p'') = run_pass fs p' in (record f { blocks = bs } ∷ fs', p'')
