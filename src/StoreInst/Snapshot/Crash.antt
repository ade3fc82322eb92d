-- ===== src/StoreInst/Snapshot/Crash.antt =====
-- What recovery finds after a crash while `snapshot` copies.
use snapshot_public.Prelude.{
  ℕ, ◌≡◌, refl, ◌⊎◌, inl, inr, false, some, List, [], ◌∷◌, arith, Option-cases, Bool-cases,
}
use snapshot_public.StoreInst.Memory.{Mem}
use snapshot_public.StoreInst.Log.{Layout, Log, set_state, set_log_offset}
use snapshot_public.StoreInst.Recovery.{
  Dependency, LogFiles, is_active, needs_recovery, find_entries, apply_reverse, recover_log,
  recover, open_file,
}
use snapshot_public.StoreInst.Snapshot.{begin_log}

-- Each active log file is as `snapshot` left it when it began to copy.
abbrev pub IsBegun : LogFiles → Type 0
IsBegun logs =
    (pid tid : ℕ) (log : Layout)
    → logs pid tid ≡ some log
    → (is_active log.state ≡ false) ⊎ ((l : Log) × (log ≡ (begin_log l).log_area))

log_offset-begin_log : (l : Log) → (begin_log l).log_area.log_offset ≡ 0
unfolding begin_log set_state set_log_offset
log_offset-begin_log l = refl

recover_log-begun :
    (l : Log) (addr len : ℕ) (file : Mem) → recover_log (begin_log l).log_area addr len file ≡ file
unfolding recover_log find_entries apply_reverse
recover_log-begun l addr len file = rw (log_offset-begin_log l)

recover-begun :
    (logs : LogFiles) (len : ℕ) (d : Dependency) (file : Mem) (l : Log)
    → logs d.pid d.tid ≡ some (begin_log l).log_area
    → recover logs len (d ∷ []) file ≡ some file
unfolding recover
recover-begun logs len d file l found = ground (arith, recover_log-begun l d.addr len file)

-- A crash while `snapshot` copies is not undone by recovery: where each active log file is as
-- `snapshot` left it when it began to copy, the constructor of `PmemFile`, which recovers a file,
-- leaves the backing file as the crash left it.
pub open_file_begun :
    (logs : LogFiles) (len : ℕ) (deps : List Dependency) (file : Mem)
    → IsBegun logs
    → open_file logs len deps file ≡ some file
unfolding open_file needs_recovery
open_file_begun logs len [] file begun = unfold recover in refl
open_file_begun logs len (d ∷ ds) file begun = elim (Option-cases (logs d.pid d.tid)) [
  | inl absent ↦ ground (arith, open_file_begun logs len ds file begun)
  | inr (log, found) ↦ elim (begun d.pid d.tid log found) [
    | inl idle ↦ ground (arith, open_file_begun logs len ds file begun)
    | inr (l, e) ↦ elim (Bool-cases (is_active log.state)) [
      | inl on ↦ ground (arith, recover-begun logs len d file l (rw e at found))
      | inr off ↦ ground (arith, open_file_begun logs len ds file begun)
    ]
  ]
]
