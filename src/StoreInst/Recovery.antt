-- ===== src/StoreInst/Recovery.antt =====
-- recovery.cc, `PmemFile::needs_recovery` and `PmemFile::recover`: the logs that a mapped file
-- depends on are looked up, and an active one is undone on the backing file, last entry first.
-- A backing file is mapped at the address at which the crashed process had mapped the file, so a
-- write to the address `a` is a write to the file's byte `a - addr`.
pub mod Chain
pub mod First
pub mod Undo
pub mod Rollback
use snapshot_public.Prelude.{
  ℕ, zero, suc, ◌+◌, ◌-◌, Bool, true, false, ◌&&◌, Option, none, some, List, [], ◌∷◌, ltb, leb,
  if◌then◌else◌,
}
use snapshot_public.StoreInst.Memory.{Mem, memcpy}
use snapshot_public.StoreInst.Entry.{header_size, entry_bytes, entry_addr}
use snapshot_public.StoreInst.Log.{State, empty, active, committed, Layout}

-- A line of the dependency file, `pid,tid,addr`.
pub record Dependency : Type 0 where
  pub pid : ℕ
  pub tid : ℕ
  pub addr : ℕ

-- The log files by process and thread; `none` where there is no such file.
abbrev pub LogFiles : Type 0
LogFiles = ℕ → ℕ → Option Layout

unfoldable pub is_active : State → Bool
is_active empty = false
is_active active = true
is_active committed = false

unfoldable pub needs_recovery : LogFiles → List Dependency → List Dependency
needs_recovery logs [] = []
needs_recovery logs (d ∷ ds) =
    let rest = needs_recovery logs ds in
    elim (logs d.pid d.tid) [
      | none ↦ rest
      | some log ↦ if is_active log.state then d ∷ [] else rest
    ]

-- `cur_off` after the entry at `cur_off`
abbrev pub next_off : Mem → ℕ → ℕ
next_off c cur_off = cur_off + (entry_bytes c cur_off + header_size)

unfoldable pub in_file : ℕ → ℕ → ℕ → Bool
in_file addr len a = leb addr a && ltb a (addr + len)

-- The first loop of `recover`: the offsets of the entries that lie in the file. The first
-- argument bounds the rounds; each round moves by a header at least.
unfoldable pub find_entries : ℕ → Mem → ℕ → ℕ → ℕ → ℕ → List ℕ
find_entries zero c cur_off log_offset addr len = []
find_entries (suc rounds) c cur_off log_offset addr len =
    let rest = find_entries rounds c (next_off c cur_off) log_offset addr len in
    if ltb cur_off log_offset
    then (if in_file addr len (entry_addr c cur_off) then cur_off ∷ rest else rest)
    else []

-- The copy of an entry's content to its destination.
unfoldable pub apply_entry : Mem → ℕ → ℕ → Mem → Mem
apply_entry c addr off file =
    memcpy file (entry_addr c off - addr) c (off + header_size) (entry_bytes c off)

-- The second loop of `recover`, over the offsets in reverse.
unfoldable pub apply_reverse : Mem → ℕ → List ℕ → Mem → Mem
apply_reverse c addr [] file = file
apply_reverse c addr (off ∷ offs) file = apply_entry c addr off (apply_reverse c addr offs file)

-- The body of `recover` for one log.
unfoldable pub recover_log : Layout → ℕ → ℕ → Mem → Mem
recover_log log addr len file =
    apply_reverse log.content addr
      (find_entries log.log_offset log.content 0 log.log_offset addr len) file

-- `PmemFile::recover`; `none` is the exit on a log file that cannot be opened.
unfoldable pub recover : LogFiles → ℕ → List Dependency → Mem → Option Mem
recover logs len [] file = some file
recover logs len (d ∷ ds) file = elim (logs d.pid d.tid) [
  | none ↦ none
  | some log ↦ recover logs len ds (recover_log log d.addr len file)
]

-- What the constructor of `PmemFile` does to the backing file of a named file.
unfoldable pub open_file : LogFiles → ℕ → List Dependency → Mem → Option Mem
open_file logs len deps file = recover logs len (needs_recovery logs deps) file
