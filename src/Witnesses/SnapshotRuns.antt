-- ===== src/Witnesses/SnapshotRuns.antt =====
-- Two threads store to a tracked page, which is then snapshotted.
use mathlib.Core.List.Permᴰ
use snapshot_public.Prelude.{
  ℕ, ◌+◌, ◌*◌, ◌/◌, ◌≤◌, ◌<◌, ◌≡◌, ◌⊎◌, ◌↔◌, refl, inl, inr, true, false, none, some, List, [], ◌∷◌,
  ◌==◌, Any, All, arith,
}
use snapshot_public.StoreInst.Memory.{sub64}
use snapshot_public.StoreInst.Apply.{in_range}
use snapshot_public.StoreInst.Log.{
  log_range, init_thread_buf, set_log_offset, set_tail_ptr, append_entry, flush_lines, remember,
  is_back_to_back,
}
use snapshot_public.StoreInst.Apply.Copies.{mirror}
use snapshot_public.StoreInst.Apply.Loop.{IsWanted}
use snapshot_public.StoreInst.Snapshot.{first_returns, size_found}
use snapshot_public.StoreInst.Snapshot.{Sorter, Machine, default_start, snapshot}
use snapshot_public.StoreInst.Snapshot.Effect.{IsReady, IsDropped, IsMappingPlaced}
use snapshot_public.StoreInst.Snapshot.Persist.{
  snapshot_persists, snapshot_exits_iff, snapshot_forgets,
}
use snapshot_public.StoreInst.Stores.{
  addr_in_range, log_by, check_memory, put_mem, is_logged_copy, logged_memcpy, instrumented_store,
  exec, run, Store, scalar, copy,
}
use snapshot_public.StoreInst.Stores.Logged.{IsLogged}
use snapshot_public.StoreInst.Stores.Run.{AllAllowed, run-IsLogged, snapshot_syncs}

-- A sort that keeps the order is a sort of what is in order already.
abbrev pub sorter : Sorter
sorter = record { sort = λ l. l; sort-perm = λ l. Permᴰ.refl l }

-- A page at the default address whose backing file is up to date, and two threads.
abbrev pub synced : Machine
synced = record {
  rt = record {
    cxl_mode_enabled = true;
    store_inst_enabled = true;
    start_tracking = true;
    start_addr = default_start;
    end_addr = default_start + 4096;
    back_to_back_dup_log = 0;
  };
  mem = λ _. 7;
  backing = λ _. 7;
  backing_ops = [];
  tls_logs = init_thread_buf ∷ init_thread_buf ∷ [];
  backing_file_start = 0x20000000000;
  mapped_addr =
      record {
        start = default_start;
        end = default_start + 4096;
        is_anonymous = false;
        file_size = 4096;
        file_exists = true;
      }
      ∷ [];
  first_snapshot = true;
  nop_msync = false;
  cache_resizes = true;
  snapshots = 0;
  real_msyncs = 0;
}

pub synced-IsLogged : IsLogged synced
synced-IsLogged = record {
  on = refl;
  tracking = refl;
  margin = omega arith;
  covered = λ x h k. inl refl;
  placed = (tt, (tt, tt));
}

-- Thread 0 stores eight bytes, and thread 1 copies twenty.
abbrev stores : List (ℕ × Store)
stores = (0, scalar default_start 8 9) ∷ (1, copy (default_start + 64) default_start 20) ∷ []

stores_allowed : AllAllowed synced stores
unfolding exec instrumented_store check_memory put_mem log_by log_range is_back_to_back
stores_allowed = (
  (
    omega arith,
    record {
      exists = omega arith;
      apart = λ h. absurd (omega arith);
      room = omega arith;
      backing_room = omega arith;
    },
  ),
  (
    record {
      exists = omega arith;
      apart = λ h. absurd (omega arith);
      room = omega arith;
      backing_room = omega arith;
    },
    tt,
  ),
)

run-IsLogged_example : IsLogged (run synced stores)
run-IsLogged_example = run-IsLogged synced stores synced-IsLogged stores_allowed

abbrev pub stored : Machine
stored = run synced stores

page_placed : IsMappingPlaced default_start 0x20000000000 (record {
  start = default_start;
  end = default_start + 4096;
  is_anonymous = false;
  file_size = 4096;
  file_exists = true;
})
page_placed = record { behind = omega arith; room = omega arith; backing_room = omega arith }

snapshot_syncs_example :
    (m' : Machine) × (snapshot sorter (λ _ _. true) stored default_start 4096 ≡ some m')
    × ((x : ℕ)
        → default_start ≤ x
        → x < default_start + 4096
        → m'.backing (mirror default_start 0x20000000000 x) ≡ m'.mem x)
unfolding run exec instrumented_store check_memory put_mem log_by log_range is_back_to_back
    logged_memcpy is_logged_copy addr_in_range first_returns size_found
snapshot_syncs_example =
    snapshot_syncs sorter (λ _ _. true) stored 4096 refl refl
      (run-IsLogged synced stores synced-IsLogged stores_allowed) (omega arith) (omega arith)
      (inr refl) (page_placed, tt) (omega arith) refl

pub stored-IsReady : IsReady stored
unfolding run exec instrumented_store check_memory put_mem log_by log_range is_back_to_back
    logged_memcpy is_logged_copy addr_in_range
stored-IsReady = record {
  margin = omega arith;
  start_fits = omega arith;
  back_fits = omega arith;
  logs_placed = (run-IsLogged synced stores synced-IsLogged stores_allowed).placed;
  start_default = inr refl;
  mappings_placed = (page_placed, tt);
}

-- Of the two stores only the first is in the range.
snapshot_persists_example :
    (m' : Machine) × (snapshot sorter (λ _ _. true) stored default_start 16 ≡ some m')
    × ((x : ℕ)
        → default_start ≤ x
        → Any (λ l. Any (IsWanted default_start 16 x) l.entries) stored.tls_logs
        → m'.backing (mirror default_start 0x20000000000 x) ≡ stored.mem x)
    × ((x : ℕ)
        → default_start ≤ x
        → (m'.backing (mirror default_start 0x20000000000 x) ≡ 7)
          ⊎ (m'.backing (mirror default_start 0x20000000000 x) ≡ stored.mem x))
    × All IsDropped m'.tls_logs
    × (m'.mem ≡ stored.mem)
unfolding run exec instrumented_store check_memory put_mem log_by log_range is_back_to_back
    logged_memcpy is_logged_copy addr_in_range first_returns size_found
snapshot_persists_example =
    snapshot_persists sorter (λ _ _. true) stored default_start 16 refl refl stored-IsReady refl

-- After the first snapshot, one of a range without stores is taken, then one of the whole page.
abbrev later : Machine
later = record stored { first_snapshot = false }

snapshot_forgets_example :
    (m' m'' : Machine) × (snapshot sorter (λ _ _. true) later (default_start + 2048) 64 ≡ some m')
    × (snapshot sorter (λ _ _. true) m' default_start 4096 ≡ some m'')
    × (m'.backing ≡ (λ _. 7))
    × All IsDropped m'.tls_logs
    × (m''.backing ≡ (λ _. 7))
    × (m''.mem ≡ stored.mem)
unfolding run exec instrumented_store check_memory put_mem log_by log_range is_back_to_back
    logged_memcpy is_logged_copy addr_in_range append_entry flush_lines remember set_log_offset
    set_tail_ptr in_range sub64
snapshot_forgets_example =
    snapshot_forgets sorter (λ _ _. true) later (default_start + 2048) 64 default_start 4096 refl
      refl refl ((refl, tt), ((refl, tt), tt))

abbrev plain : Machine
plain = record synced { rt = record synced.rt { store_inst_enabled = false } }

snapshot_exits_iff_example :
    (snapshot sorter (λ addr n. addr == 4096) plain 9000 100 ≡ none)
    ↔ (false ≡ false)
      × (((false ≡ false) × (((9000 / 4096 * 4096) == 4096) ≡ false))
          ⊎ ((false ≡ true)
              × (true ≡ true)
              × (0 < 2)
              × ((size_found 9000 synced.mapped_addr ≡ false) ⊎ (true ≡ false))))
snapshot_exits_iff_example = snapshot_exits_iff sorter (λ addr n. addr == 4096) plain 9000 100
