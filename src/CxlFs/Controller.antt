-- ===== src/CxlFs/Controller.antt =====
-- controller.cc and pfmonitor.cc: a range of addresses of which at most `max_active_pg_cnt` pages
-- are in memory. The others are inaccessible, and live on the block device until a fault brings
-- them in. The first eight sectors from `start_lba` on are one page of the device. `blk` has of each
-- page what the device took last; a write that it took may still be pending, or may fail, and then
-- a read finds other bytes (`wrong_page`).
pub mod Accessors
pub mod Pages
pub mod Faults
pub mod Flush
pub mod Overflow
pub mod Paging
pub mod Refines
use snapshot_public.Prelude.{
  ℕ, zero, suc, ◌+◌, ◌-◌, ◌*◌, ◌/◌, ◌%◌, Bool, true, false, not, ◌&&◌, ◌||◌, Option, none, some,
  List, [], ◌∷◌, ◌++◌, ltb, leb, ◌==◌, if◌then◌else◌, length, get_elem?, ◌>>=◌,
}

-- The bytes of a page by their offset.
abbrev pub Page : Type 0
Page = ℕ → ℕ

abbrev pub page_size : ℕ
page_size = 4096

abbrev pub max_mapped_pg_lookup : ℕ
max_mapped_pg_lookup = 0x100

-- A `Controller`, the globals of controller.cc, the device and the shared memory. `mapped_pages`
-- lists the keys of the map in the order of its iteration, `ubd_wr_cq` the first sectors of the
-- pending writes; `shm` and `access` tell the content of a page of the memory and whether it may
-- be accessed. `shm_start` is 0 before the first `init`.
pub record Controller : Type 0 where
  pub faults : ℕ
  pub max_active_pg_cnt : ℕ
  pub shm_pg_cnt : ℕ
  pub shm_size : ℕ
  pub shm_start : ℕ
  pub mapped_pages : List ℕ
  pub used_pages : ℕ
  pub ubd_wr_cq : List ℕ
  pub monitor_thread_running : Bool
  pub dist : List ℕ
  pub dist_age : ℕ
  pub max_dist_age : ℕ
  pub blk : ℕ → Page
  pub shm : ℕ → Page
  pub access : ℕ → Bool

-- What the machine answers while a page is evicted: the sampled distribution and the time in ns
-- that sampling took, `rand()`, whether the device accepts the write, which pending writes are
-- complete, with an error or not, whether `mprotect` succeeds, and what the read of the page leaves in
-- the buffer: `none` is the page as the device took it last, and `some` any other bytes, of a failed
-- read, of an earlier write that is still pending, or of one that failed.
pub record EvictEnv : Type 0 where
  pub sampled : List ℕ
  pub sampling_ns : ℕ
  pub rand : ℕ
  pub write_accepted : Bool
  pub is_completed : ℕ → Bool
  pub mprotect_succeeds : Bool
  pub wrong_page : Option Page

-- What it answers while the range is mapped: the address (`none` is MAP_FAILED), and whether the
-- calls of `mprotect`, `move_range` and `pthread_create` succeed.
pub record InitEnv : Type 0 where
  pub mmap_result : Option ℕ
  pub mprotect_succeeds : Bool
  pub move_range_succeeds : Bool
  pub thread_starts : Bool

unfoldable pub contains : List ℕ → ℕ → Bool
contains [] x = false
contains (y ∷ ys) x = (y == x) || contains ys x

-- `mapped_pages.erase`
unfoldable pub erase : List ℕ → ℕ → List ℕ
erase [] x = []
erase (y ∷ ys) x = if y == x then erase ys x else y ∷ erase ys x

-- `mapped_pages[x] = true`
unfoldable pub mark : List ℕ → ℕ → List ℕ
mark ys x = if contains ys x then ys else x ∷ ys

unfoldable pub update {ℓ} : {A : Type ℓ} → (ℕ → A) → ℕ → A → ℕ → A
update f x v y = if y == x then v else f y

-- The update of the distribution at the head of `evict_a_page`.
unfoldable pub refresh_dist : EvictEnv → Controller → Controller
refresh_dist env c =
    if c.dist_age == c.max_dist_age
    then record c {
      dist = env.sampled;
      dist_age = 0;
      max_dist_age =
          if ltb 1 (env.sampling_ns / 1024)
          then c.max_dist_age * (env.sampling_ns / 1024)
          else c.max_dist_age;
    }
    else record c { dist_age = c.dist_age + 1 }

-- The loop that looks for a page outside the distribution: the last one that it meets before its
-- counter exceeds the limit.
unfoldable pub find_target : List ℕ → ℕ → Option ℕ → List ℕ → Option ℕ
find_target dist pg_lookup_cnt target [] = target
find_target dist pg_lookup_cnt target (pg ∷ pgs) =
    let target' = if contains dist pg then target else some pg in
    let rest = find_target dist (pg_lookup_cnt + 1) target' pgs in
    if ltb max_mapped_pg_lookup pg_lookup_cnt then target' else rest

-- The page to evict; without a candidate a random one, and `none` if no page is mapped, where
-- `rand() % 0` traps.
unfoldable pub choose_target : EvictEnv → Controller → Option ℕ
choose_target env c = elim (find_target c.dist 0 none c.mapped_pages) [
  | some pg ↦ some pg
  | none ↦ get_elem? c.mapped_pages (env.rand % length c.mapped_pages)
]

unfoldable pub drop_completed : (ℕ → Bool) → List ℕ → List ℕ
drop_completed is_completed [] = []
drop_completed is_completed (lba ∷ lbas) =
    if is_completed lba
    then drop_completed is_completed lbas
    else lba ∷ drop_completed is_completed lbas

-- The sweep of the pending writes: completed ones are dropped, but the first is never looked at.
unfoldable pub sweep : (ℕ → Bool) → List ℕ → List ℕ
unfolding drop_completed
sweep is_completed [] = []
sweep is_completed (first ∷ rest) = first ∷ drop_completed is_completed rest

-- The part of `evict_a_page` behind the choice of the page. The result is 0 (`true`) or -1; `none`
-- is the exit on a failing `mprotect`. The write is not waited for: `blk` has the page as what the
-- device took last, and what becomes of the write is left to the reads behind it (`wrong_page`).
unfoldable pub evict_target : EvictEnv → ℕ → Controller → Option (Controller × Bool)
evict_target env target c =
    if not env.write_accepted
    then some (c, false)
    else if not env.mprotect_succeeds
    then none
    else some (
      record c {
        blk = update c.blk (target * 8) (c.shm target);
        ubd_wr_cq = sweep env.is_completed (c.ubd_wr_cq ++ (target * 8) ∷ []);
        access = update c.access target false;
        mapped_pages = erase c.mapped_pages target;
        used_pages = c.used_pages - 1;
      },
      true,
    )

-- `Controller::evict_a_page`
unfoldable pub evict_a_page : EvictEnv → Controller → Option (Controller × Bool)
evict_a_page env c = do
  target ← choose_target env (refresh_dist env c)
  evict_target env target (refresh_dist env c)

-- The index of the page that holds an address.
unfoldable pub page_index : Controller → ℕ → ℕ
page_index c addr = (addr - c.shm_start) / page_size

-- What `read_blocking` leaves in the buffer; its result is ignored.
unfoldable pub page_read : Option Page → Page → Page
page_read none page = page
page_read (some wrong) page = wrong

-- `Controller::map_page_from_blkdev`: the page read, and the new state.
unfoldable pub map_page_from_blkdev : EvictEnv → ℕ → Controller → Page × Controller
map_page_from_blkdev env pf_addr c =
    let aligned = pf_addr / page_size * page_size in
    let start_lba = page_index c aligned * 8 in
    (
      page_read env.wrong_page (c.blk start_lba),
      record c { mapped_pages = mark c.mapped_pages (page_index c aligned) },
    )

-- `notify_page_fault` of `monitor_thread`. `none` is the exit, by a failed assertion or in
-- `evict_a_page`; its result is ignored.
unfoldable pub notify_page_fault : EvictEnv → ℕ → Controller → Option (Page × Controller)
notify_page_fault env addr c = if not (leb c.used_pages c.max_active_pg_cnt) then none else do
  c' ←
      if c.used_pages == c.max_active_pg_cnt then (evict_a_page env c >>= λ r. some r.0) else some c
  some (
      map_page_from_blkdev env addr
        (record c' { faults = c'.faults + 1; used_pages = c'.used_pages + 1 }))

-- The end of `handler`: the page is made accessible and filled.
unfoldable pub fill_page : Bool → ℕ → Page → Controller → Option Controller
fill_page mprotect_succeeds idx src c =
    if mprotect_succeeds
    then some (record c { access = update c.access idx true; shm = update c.shm idx src })
    else none

-- `PFMonitor::handler`: the fault of an access to `place`.
unfoldable pub handler : EvictEnv → ℕ → Controller → Option Controller
handler env place c =
    if leb c.shm_start place && ltb place (c.shm_start + c.shm_size)
    then (do
      let page_aligned = place / 4096 * 4096
      (src, c') ← notify_page_fault env page_aligned c
      fill_page env.mprotect_succeeds (page_index c page_aligned) src c')
    else none

-- The part of `init` behind the call of `mmap`, by its result; `shm_start` is still the old one.
unfoldable pub map_range : InitEnv → Controller → Option ℕ → Option (Controller × Bool)
map_range env c none = some (record c { access = λ _. false }, false)
map_range env c (some shm_addr) =
    let mapped = record c { shm_start = shm_addr; shm = λ _ _. 0; access = λ _. true } in
    if not (c.shm_start == 0) && not (shm_addr == c.shm_start)
    then none
    else if not env.mprotect_succeeds
    then some (mapped, false)
    else if not env.move_range_succeeds
    then some (record mapped { access = λ _. false }, false)
    else if c.monitor_thread_running
    then some (record mapped { access = λ _. false }, true)
    else if not env.thread_starts
    then some (record mapped { access = λ _. false }, false)
    else some (record mapped { access = λ _. false; monitor_thread_running = true }, true)

-- `Controller::init`; `false` is -1, and `none` the exit on a range that moved.
unfoldable pub init : InitEnv → ℕ → ℕ → Controller → Option (Controller × Bool)
init env max_active_pg_cnt shm_pg_cnt c =
    let started = record c {
      max_active_pg_cnt = max_active_pg_cnt;
      shm_pg_cnt = shm_pg_cnt;
      faults = 0;
      shm_size = shm_pg_cnt * page_size;
      used_pages = 0;
    } in
    map_range env started env.mmap_result

-- How a call of `write_blocking` ends: it dereferences a null request where the device does not
-- accept the write, or waits for ever; the write is done; or it completes with an error, which the
-- caller does not learn, and leaves any bytes.
pub data WriteOutcome : Type 0 where
  no_return written : WriteOutcome
  damaged : Page → WriteOutcome

-- The page on the device behind it.
unfoldable pub page_written : WriteOutcome → Page → Option Page
page_written no_return page = none
page_written written page = some page
page_written (damaged left) page = some left

-- The loop of `flush_cache`, by the outcome of the write to each first sector.
unfoldable pub write_back :
    (ℕ → WriteOutcome) → (ℕ → Page) → List ℕ → (ℕ → Page) → Option (ℕ → Page)
write_back outcome shm [] blk = some blk
write_back outcome shm (pg ∷ pgs) blk = do
  page ← page_written (outcome (pg * 8)) (shm pg)
  write_back outcome shm pgs (update blk (pg * 8) page)

-- `Controller::flush_cache`; the result of `init` is ignored. Without pages it ends in an error.
unfoldable pub flush_cache : (ℕ → WriteOutcome) → InitEnv → Controller → Option Controller
flush_cache outcome env c = if c.shm_pg_cnt == 0 then none else do
  blk ← write_back outcome c.shm c.mapped_pages c.blk
  r ← init env c.max_active_pg_cnt c.shm_pg_cnt (record c { blk = blk; mapped_pages = [] })
  some r.0

-- `Controller::resize_cache`
unfoldable pub resize_cache : (ℕ → WriteOutcome) → InitEnv → ℕ → Controller → Option Controller
resize_cache outcome env pg_cnt c =
    let resized = record c { max_active_pg_cnt = pg_cnt } in
    if ltb pg_cnt c.max_active_pg_cnt then flush_cache outcome env resized else some resized
