-- ===== src/Witnesses/WrapperRuns.antt =====
-- Files are mapped, synchronized and unmapped.
use snapshot_public.Prelude.{
  ℕ, ◌+◌, ◌≤◌, ◌<◌, ◌≡◌, refl, inl, true, false, none, some, List, [], ◌∷◌, Any, All, arith,
}
use snapshot_public.StoreInst.Log.{log_range, is_back_to_back}
use snapshot_public.StoreInst.Recovery.{Dependency, LogFiles, needs_recovery}
use snapshot_public.StoreInst.Apply.Copies.{mirror}
use snapshot_public.StoreInst.Apply.Loop.{IsWanted}
use snapshot_public.StoreInst.Snapshot.{first_returns, size_found}
use snapshot_public.StoreInst.Snapshot.{Mapping, Machine, default_start}
use snapshot_public.StoreInst.Snapshot.Effect.{IsDropped}
use snapshot_public.StoreInst.Stores.{
  addr_in_range, log_by, check_memory, put_mem, is_logged_copy, logged_memcpy, instrumented_store,
  exec, run,
}
use snapshot_public.StoreInst.PmemFile.{PmemFile, Disk, Wrapper, BackingEnv, cxl0}
use snapshot_public.StoreInst.Wrappers.{
  CacheEnv, find_mapping, intercepted_mmap, intercepted_fsync, intercepted_fdatasync,
  intercepted_munmap,
}
use snapshot_public.StoreInst.Wrappers.Remap.{IsServing, pmem_file, remap_changes_first}
use snapshot_public.StoreInst.Wrappers.Syncing.{fsync_persists, intercepted_munmap_drops}
use snapshot_public.Witnesses.SnapshotRuns.{sorter, stored, stored-IsReady}

-- A process that has mapped nothing yet.
abbrev fresh : Wrapper
fresh = record {
  rt = record {
    cxl_mode_enabled = true;
    store_inst_enabled = false;
    start_tracking = false;
    start_addr = default_start;
    end_addr = default_start + 0x10000000;
    back_to_back_dup_log = 0;
  };
  mmap_start = 0;
  backing_file_start = 0;
  mapped_addr = [];
}

abbrev backing_env : BackingEnv
backing_env = record {
  mapped_at = some 0x20000000000;
  madvise_succeeds = true;
  flush_succeeds = true;
}

abbrev cache_env : CacheEnv
cache_env = record { mmap_result = some default_start; madvise_succeeds = true; pid = 1; tid = 2 }

abbrev no_logs : LogFiles
no_logs pid tid = none

no_logs-idle : (ds : List Dependency) → needs_recovery no_logs ds ≡ []
unfolding needs_recovery
no_logs-idle [] = refl
no_logs-idle (d ∷ ds) = no_logs-idle ds

-- A file of 4096 bytes of 7.
abbrev disk : Disk
disk = record {
  original = record { content = λ _. 7; size = 4096 };
  backing = none;
  dependencies = [];
}

fresh-IsServing : IsServing backing_env cache_env fresh
unfolding addr_in_range
fresh-IsServing = record {
  on = refl;
  backing_at = 0x20000000000;
  backing = refl;
  backing_advice = refl;
  cache_at = default_start;
  cache = refl;
  cache_advice = refl;
  tracked = refl;
}

remap_changes_first_example :
    (p p' : ℕ) × (disk1 disk2 : Disk) × (w1 w2 : Wrapper) × (intercepted_mmap no_logs backing_env
        none cache_env
        (pmem_file 0 4096)
        (some 3)
        disk
        fresh
      ≡ some (p, disk1, w1))
    × (intercepted_mmap no_logs backing_env
          (some 4096)
          cache_env
          (pmem_file 0 4096)
          (some 4)
          disk1
          fresh
        ≡ some (p', disk2, w2))
    × (disk2.original.content 0 ≡ 1)
    × ((i : ℕ) → 0 < i → disk2.original.content i ≡ 7)
remap_changes_first_example =
    remap_changes_first no_logs backing_env backing_env cache_env cache_env 0 4096 3 4 4096 disk
      fresh fresh fresh-IsServing fresh-IsServing refl (omega arith) (omega arith) no_logs-idle

abbrev cxl_file : PmemFile
cxl_file = record { is_anonymous = false; mount = cxl0; addr = 0; len = 4096 }

abbrev page : Mapping
page = record {
  start = default_start;
  end = default_start + 4096;
  is_anonymous = false;
  file_size = 4096;
  file_exists = true;
}

fsync_persists_example :
    (m' : Machine) × (intercepted_fsync sorter (λ _ _. true) true ((7, page) ∷ []) stored 7
      ≡ some (m', true))
    × (intercepted_fdatasync sorter (λ _ _. true) false ((7, page) ∷ []) stored 7 ≡ some (m', true))
    × ((x : ℕ)
        → default_start ≤ x
        → Any (λ l. Any (IsWanted default_start 4096 x) l.entries) stored.tls_logs
        → m'.backing (mirror default_start 0x20000000000 x) ≡ stored.mem x)
    × All IsDropped m'.tls_logs
unfolding run exec instrumented_store check_memory put_mem log_by log_range is_back_to_back
    logged_memcpy is_logged_copy addr_in_range find_mapping first_returns size_found
fsync_persists_example =
    fsync_persists sorter (λ _ _. true) true false ((7, page) ∷ []) stored 7 page refl refl refl
      refl stored-IsReady refl

abbrev low : Mapping
low = record { start = 4096; end = 8192; is_anonymous = true; file_size = 0; file_exists = true }

intercepted_munmap_drops_example :
    intercepted_munmap ((5, low) ∷ (7, page) ∷ []) (default_start + 10) ≡ none
intercepted_munmap_drops_example =
    intercepted_munmap_drops ((5, low) ∷ []) [] 7 (default_start + 10) page (inl (omega arith), tt)
      (omega arith) (omega arith)
