-- ===== src/Witnesses/PagingRuns.antt =====
-- A range of four pages of which one may be in memory.
use snapshot_public.Prelude.{
  ℕ, ◌+◌, ◌≤◌, ◌≡◌, refl, true, false, none, some, List, [], ◌∷◌, ◌==◌, arith,
}
use snapshot_public.CxlFs.Controller.{written}
use snapshot_public.CxlFs.Controller.{
  Controller, EvictEnv, InitEnv, contains, update, page_index, handler, resize_cache,
}
use snapshot_public.CxlFs.Controller.Paging.{view, IsPaged, IsKept, IsServed}
use snapshot_public.CxlFs.Controller.Faults.{IsFault, handler_serves}
use snapshot_public.CxlFs.Controller.Refines.{
  Access, load, store, run_paged, run_flat, flat, IsRunning, run_refines,
}
use snapshot_public.CxlFs.Controller.Flush.{IsMapped, resize_cache_keeps}
use snapshot_public.CxlFs.Controller.Overflow.{handler_overflows}

-- Page 2 is in memory, and each page of the device is full of its number.
abbrev pub full : Controller
full = record {
  faults = 1;
  max_active_pg_cnt = 1;
  shm_pg_cnt = 4;
  shm_size = 16384;
  shm_start = 40960;
  mapped_pages = 2 ∷ [];
  used_pages = 1;
  ubd_wr_cq = [];
  monitor_thread_running = true;
  dist = [];
  dist_age = 0;
  max_dist_age = 100;
  blk = λ lba _. lba;
  shm = λ _ _. 200;
  access = λ pg. pg == 2;
}

full-IsPaged : IsPaged full
unfolding contains
full-IsPaged = record {
  nodup = (refl, tt);
  used = refl;
  mapped = λ pg. ground arith;
  aligned = refl;
}

full-IsRunning : IsRunning full
full-IsRunning = record { paged = full-IsPaged; fits = omega arith; room = omega arith }

abbrev pub working : EvictEnv
working = record {
  sampled = [];
  sampling_ns = 0;
  rand = 7;
  write_accepted = true;
  is_completed = λ _. true;
  mprotect_succeeds = true;
  wrong_page = none;
}

working-IsServed : IsServed working
working-IsServed = record { write = refl; mprotect = refl; read = refl }

-- The last byte of page 0.
faulting : IsFault full 45055
unfolding page_index
faulting = record { lower = omega arith; upper = omega arith; absent = refl }

handler_serves_example :
    (c' : Controller) × (handler working 45055 full ≡ some c')
    × (c'.access 0 ≡ true)
    × IsPaged c'
    × (c'.used_pages ≤ c'.max_active_pg_cnt)
    × IsKept full c'
unfolding page_index
handler_serves_example =
    handler_serves working 45055 full working-IsServed full-IsPaged (omega arith) (omega arith)
      faulting

-- A store to page 0 evicts page 2, and the load of page 2 evicts page 0 again.
abbrev accesses : List (EvictEnv × Access)
accesses = (working, store 40961 5) ∷ (working, load 49153) ∷ (working, load 40961) ∷ []

run_refines_example :
    (c' : Controller) × (run_paged accesses full ≡ some (200 ∷ 5 ∷ [], c'))
    × (flat c' ≡ (run_flat 40960 accesses (flat full)).1)
    × IsRunning c'
unfolding run_flat update
run_refines_example = run_refines accesses full full-IsRunning (
  (working-IsServed, omega arith, omega arith),
  (
    (working-IsServed, omega arith, omega arith),
    ((working-IsServed, omega arith, omega arith), tt),
  ),
)

abbrev pub mapping : InitEnv
mapping = record {
  mmap_result = some 40960;
  mprotect_succeeds = true;
  move_range_succeeds = true;
  thread_starts = true;
}

full-IsMapped : IsMapped (λ _. written) mapping full
full-IsMapped = record {
  done = λ lba. refl;
  mmap = refl;
  mprotect = refl;
  move_range = refl;
  running = refl;
  nonempty = refl;
  whole = refl;
}

resize_cache_keeps_example :
    (c' : Controller) × (resize_cache (λ _. written) mapping 0 full ≡ some c')
    × (c'.max_active_pg_cnt ≡ 0)
    × (c'.used_pages ≤ 0)
    × IsPaged c'
    × ((pg : ℕ) → view c' pg ≡ view full pg)
resize_cache_keeps_example =
    resize_cache_keeps (λ _. written) mapping 0 full full-IsMapped full-IsPaged (omega arith)

abbrev refusing : EvictEnv
refusing = record working { write_accepted = false; wrong_page = some (λ _. 255) }

handler_overflows_example :
    (c' : Controller) × (handler refusing 45055 full ≡ some c')
    × (c'.used_pages ≡ c'.max_active_pg_cnt + 1)
    × ((env' : EvictEnv) (place' : ℕ) → handler env' place' c' ≡ none)
handler_overflows_example =
    handler_overflows refusing 45055 full refl refl full-IsPaged refl (omega arith) faulting
