-- ===== src/Pass/Exec.antt =====
-- The run of compiled blocks by several threads on the machine of the library.
use snapshot_public.Prelude.{ℕ, none, some, List, [], ◌∷◌, get_elem?}
use snapshot_public.StoreInst.Memory.{store_le}
use snapshot_public.StoreInst.Snapshot.{Machine}
use snapshot_public.StoreInst.Stores.{check_memory, put_mem}
use snapshot_public.Pass.Instrument.{Inst, store, alloca, call_check_memory, other}

-- What the values of the program are while a block runs.
abbrev pub Values : Type 0
Values = ℕ → ℕ

-- An instruction that is neither a store nor a call of `checkMemory` changes no memory here.
unfoldable pub exec_inst : Machine → ℕ → Values → Inst → Machine
exec_inst m thread vals (store ptr bytes val) =
    put_mem m (store_le bytes m.mem (vals ptr) (vals val))
exec_inst m thread vals (alloca a) = m
exec_inst m thread vals (call_check_memory ptr) = check_memory m thread (vals ptr)
exec_inst m thread vals (other i) = m

unfoldable pub exec_block : Machine → ℕ → Values → List Inst → Machine
exec_block m thread vals [] = m
exec_block m thread vals (i ∷ is) = exec_block (exec_inst m thread vals i) thread vals is

-- A visit of a block: the thread, the place of the block, and the values.
abbrev pub Visit : Type 0
Visit = ℕ × ℕ × Values

unfoldable pub exec_visit : List (List Inst) → Visit → Machine → Machine
exec_visit blocks (thread, i, vals) m = elim (get_elem? blocks i) [
  | none ↦ m
  | some b ↦ exec_block m thread vals b
]

-- The blocks that the threads go through, in the order in which they run.
unfoldable pub exec_path : List (List Inst) → List Visit → Machine → Machine
exec_path blocks [] m = m
exec_path blocks (v ∷ vs) m = exec_path blocks vs (exec_visit blocks v m)
