-- ===== src/StoreInst/Recovery/Rollback.antt =====
-- `recover_log` on a log that `log_range` wrote, after any number of stores.
use snapshot_public.Prelude.{ℕ, ◌+◌, ◌≤◌, ◌<◌, ◌^◌, ◌≡◌, refl, sym, true, arith}
use snapshot_public.StoreInst.Memory.{Mem}
use snapshot_public.StoreInst.Log.{
  Layout, Log, lean, Runtime, log_range, log_range_cases, remember, is_back_to_back, clear,
}
use snapshot_public.StoreInst.Recovery.{recover_log, find_entries, apply_reverse}
use snapshot_public.StoreInst.Recovery.Chain.{done}
use snapshot_public.StoreInst.Recovery.Undo.{
  IsParsed, fresh, IsStore, IsTorn, Undoes, restored, restored-IsTorn, appended, log_area-logged,
  last_log-logged, appended-IsParsed, recover-appended, recover-restored,
}

last_log-eq :
    (l : Log) (start bytes : ℕ)
    → is_back_to_back l start bytes ≡ true
    → l.last_log ≡ lean start bytes
unfolding is_back_to_back
last_log-eq l start bytes e = ground arith

module _ (rt : Runtime) (addr len : ℕ) (old : Mem) (first : Log) where
  -- The memories and logs that a thread reaches by stores, each logged before it happens. A store
  -- that begins before the file ends before it too.
  pub data Logging : Mem → Log → Type 0 where
    here : Logging old first
    next :
        {mem : Mem} {l : Log} (mem' : Mem) (start bytes : ℕ)
        → Logging mem l
        → start < 2 ^ 56
        → bytes < 2 ^ 23
        → (start < addr → start + bytes ≤ addr)
        → IsStore mem mem' start bytes
        → Logging mem' (log_range rt mem l start bytes).1

  abbrev IsUndoable : Mem → Log → Type 0
  IsUndoable mem l = IsParsed l.log_area l.last_log × Undoes addr len old mem l.log_area

  module _ (on : rt.cxl_mode_enabled ≡ true) where
    -- A step at which the recovery of the new log amounts to that of the old one on the restored
    -- file.
    Undoes-step :
        (mem mem' : Mem) (start bytes : ℕ) (a a' : Layout)
        → (start < addr → start + bytes ≤ addr)
        → IsStore mem mem' start bytes
        → ((file : Mem)
            → recover_log a' addr len file
              ≡ recover_log a addr len (restored addr len mem start bytes file))
        → Undoes addr len old mem a
        → Undoes addr len old mem' a'
    Undoes-step mem mem' start bytes a a' apart same peel u file torn i h = rw (peel file) (
        u (restored addr len mem start bytes file)
          (restored-IsTorn addr len old mem mem' start bytes file apart same torn) i h)

    log_range-IsUndoable :
        (mem mem' : Mem) (l : Log) (start bytes : ℕ)
        → start < 2 ^ 56
        → bytes < 2 ^ 23
        → (start < addr → start + bytes ≤ addr)
        → IsStore mem mem' start bytes
        → IsUndoable mem l
        → IsUndoable mem' (log_range rt mem l start bytes).1
    unfolding remember
    log_range-IsUndoable mem mem' l start bytes p q apart same u =
        log_range_cases (IsUndoable mem') rt mem l start bytes (λ e. cc)
          (λ e. (
            u.0,
            Undoes-step mem mem' start bytes l.log_area l.log_area apart same
                (λ file. sym (
                  recover-restored l.log_area start bytes addr len mem file
                    (rw (last_log-eq l start bytes e) at (u.0).last)))
                u.1,
          ))
          (λ _.
            rw (log_area-logged mem l start bytes, last_log-logged mem l start bytes)
              (
                appended-IsParsed l.log_area l.last_log u.0 mem start bytes p q,
                Undoes-step mem mem' start bytes l.log_area (appended l.log_area mem start bytes)
                    apart same
                    (recover-appended l.log_area l.last_log u.0 mem start bytes p q addr len) u.1,
              ))

    Logging-IsUndoable :
        {mem : Mem} {l : Log} → IsUndoable old first → Logging mem l → IsUndoable mem l
    Logging-IsUndoable u here = u
    Logging-IsUndoable u (next {mem} {l} mem' start bytes r p q apart same) =
        log_range-IsUndoable mem mem' l start bytes p q apart same (Logging-IsUndoable u r)

clear-IsUndoable :
    (rt : Runtime) (addr len : ℕ) (old : Mem) (first l : Log)
    → IsUndoable rt addr len old first old (clear l)
unfolding clear recover_log find_entries apply_reverse
clear-IsUndoable rt addr len old first l = (
  record { tail = refl; chain = done refl; last = fresh refl refl },
  λ file torn i h. ground (arith, torn i h),
)

-- From a cleared log on, any number of logged stores is undone: a file each of whose bytes has
-- either its content at the clearing or the present content of the memory, in any mixture, is
-- brought back to the content at the clearing. Each store is to an address below 2 ^ 56 and of
-- less than 2 ^ 23 bytes, and none begins before the file and reaches into it.
pub recover_log-undoes :
    (rt : Runtime) (addr len : ℕ) (old : Mem) (l : Log)
    → rt.cxl_mode_enabled ≡ true
    → {mem : Mem} {l' : Log} → Logging rt addr len old (clear l) mem l'
    → (file : Mem) → IsTorn addr len old mem file
    → (i : ℕ) → i < len
    → recover_log l'.log_area addr len file i ≡ old (addr + i)
recover_log-undoes rt addr len old l on r =
    (Logging-IsUndoable rt addr len old (clear l) on (clear-IsUndoable rt addr len old (clear l) l)
      r).1
