-- ===== src/StoreInst/Wrappers.antt =====
-- The wrappers of `mmap`, `fsync`, `fdatasync` and `munmap` of libc_wrappers.cc, and what they use of
-- recovery.cc: `map_to_page_cache` and `write_dependency`. The results of the real functions are
-- arguments.
pub mod Placement
pub mod Remap
pub mod Syncing
use snapshot_public.Prelude.{
  ℕ, ◌+◌, ◌-◌, ◌*◌, ◌/◌, ◌%◌, Bool, true, false, not, ◌&&◌, ◌||◌, Option, none, some, List, [], ◌∷◌,
  ◌++◌, ltb, leb, ◌==◌, map, if◌then◌else◌, ◌>>=◌,
}
use snapshot_public.StoreInst.Log.{Runtime}
use snapshot_public.StoreInst.Recovery.{Dependency, LogFiles}
use snapshot_public.StoreInst.Snapshot.{Mapping, Sorter, Machine, snapshot}
use snapshot_public.StoreInst.Stores.{addr_in_range}
use snapshot_public.StoreInst.PmemFile.{
  Mount, pmem0, cxl0, mss0, elsewhere, Stored, Disk, PmemFile, Wrapper, MapFlags, is_pmem,
  BackingEnv, construct, create_backing_file, map_backing_file,
}

-- What the kernel answers to `map_to_page_cache`, and the caller's process and thread.
pub record CacheEnv : Type 0 where
  pub mmap_result : Option ℕ
  pub madvise_succeeds : Bool
  pub pid : ℕ
  pub tid : ℕ

-- The flags of the mapping to the page cache.
unfoldable pub cache_flags : Runtime → PmemFile → MapFlags → MapFlags
cache_flags rt f flags = record flags {
  sync = false;
  shared = not rt.cxl_mode_enabled;
  private = rt.cxl_mode_enabled;
  fixed_noreplace = flags.fixed_noreplace || not (f.addr == 0);
}

-- In CXL mode a named file has to lie on /mnt/pmem0 or /mnt/mss0.
unfoldable pub may_cache : Runtime → PmemFile → Bool
may_cache rt f = not rt.cxl_mode_enabled || (f.is_anonymous || on_cache f.mount)
  where
    on_cache : Mount → Bool
    on_cache pmem0 = true
    on_cache cxl0 = false
    on_cache mss0 = true
    on_cache elsewhere = false

unfoldable pub find_mapping : List (ℕ × Mapping) → ℕ → Option Mapping
find_mapping [] fd = none
find_mapping ((key, r) ∷ rs) fd = if key == fd then some r else find_mapping rs fd

unfoldable pub erase_mapping : List (ℕ × Mapping) → ℕ → List (ℕ × Mapping)
erase_mapping [] fd = []
erase_mapping ((key, r) ∷ rs) fd =
    if key == fd then erase_mapping rs fd else (key, r) ∷ erase_mapping rs fd

-- `mapped_addr.insert_or_assign`
unfoldable pub assign_mapping : List (ℕ × Mapping) → ℕ → Mapping → List (ℕ × Mapping)
assign_mapping rs fd r = (fd, r) ∷ erase_mapping rs fd

-- `write_dependency`; a file without a name has no dependencies.
unfoldable pub write_dependency : CacheEnv → PmemFile → Disk → Disk
write_dependency env f disk = if f.is_anonymous then disk else record disk {
  dependencies = disk.dependencies ++ record { pid = env.pid; tid = env.tid; addr = f.addr } ∷ [];
}

-- The range that is recorded for a file descriptor.
unfoldable pub mapping_of : PmemFile → Disk → Mapping
mapping_of f disk = record {
  start = f.addr;
  end = f.addr + f.len;
  is_anonymous = f.is_anonymous;
  file_size = disk.original.size;
  file_exists = true;
}

-- `map_to_page_cache` behind the call of `mmap`, on a file descriptor (`none` is -1). The result is
-- the address, 0 standing for MAP_FAILED.
unfoldable pub record_mapping :
    CacheEnv → PmemFile → Option ℕ → Disk → Wrapper → Option ℕ → Option (ℕ × Disk × Wrapper)
record_mapping env f none disk w none = some (0, disk, w)
record_mapping env f none disk w (some result) = some (result, disk, w)
record_mapping env f (some fd) disk w none = some (0, write_dependency env f disk, w)
record_mapping env f (some fd) disk w (some result) =
    if not (addr_in_range w.rt result) && not (f.addr == 0)
    then none
    else if not env.madvise_succeeds
    then none
    else some (
      result,
      write_dependency env f disk,
      record w { mapped_addr = assign_mapping w.mapped_addr fd (mapping_of f disk) },
    )

-- `map_to_page_cache`
unfoldable pub map_to_page_cache :
    CacheEnv → PmemFile → Option ℕ → Disk → Wrapper → Option (ℕ × Disk × Wrapper)
map_to_page_cache env f fd disk w =
    if may_cache w.rt f then record_mapping env f fd disk w env.mmap_result else none

-- The address that a tracked mapping gets, and the one behind it, by pages.
unfoldable pub mmap_place : Wrapper → ℕ
mmap_place w = if w.mmap_start == 0 then w.rt.start_addr else w.mmap_start

unfoldable pub bump_mmap : ℕ → Wrapper → Wrapper
bump_mmap len w = record w { mmap_start = mmap_place w + (len + 4095) / 4096 * 4096 }

-- The part of `mmap` for a file that is tracked: it is placed, and its backing file is made and
-- mapped.
unfoldable pub track_file :
    BackingEnv → Option ℕ → PmemFile → Disk → Wrapper → Option (PmemFile × Disk × Wrapper)
track_file env sent f disk w = do
  disk' ← create_backing_file sent (record f { addr = mmap_place w }) disk
  (disk'', w') ← map_backing_file env (record f { addr = mmap_place w }) disk' (bump_mmap f.len w)
  some (record f { addr = mmap_place w }, disk'', w')

-- `mmap`
unfoldable pub intercepted_mmap :
    LogFiles
    → BackingEnv
    → Option ℕ
    → CacheEnv
    → PmemFile
    → Option ℕ
    → Disk
    → Wrapper
    → Option (ℕ × Disk × Wrapper)
intercepted_mmap logs backing_env sent cache_env f fd disk w = do
  disk' ← construct logs f disk
  (f', disk'', w') ←
      if w.rt.cxl_mode_enabled && is_pmem f.mount
      then track_file backing_env sent f disk' w
      else some (f, disk', w)
  map_to_page_cache cache_env f' fd disk'' w'

-- The machine that `snapshot` runs on has the ranges of the wrappers.
abbrev pub with_mappings : Machine → List (ℕ × Mapping) → Machine
with_mappings m rs = record m { mapped_addr = map (λ r. r.1) rs }

-- `fsync`; the result of the real function is an argument, true for 0. `none` is an exit, also on a
-- descriptor that is not mapped.
unfoldable pub intercepted_fsync :
    Sorter → (ℕ → ℕ → Bool) → Bool → List (ℕ × Mapping) → Machine → ℕ → Option (Machine × Bool)
intercepted_fsync sorter real_msync real_fsync rs m fd = do
  r ← find_mapping rs fd
  if m.rt.store_inst_enabled
      then (snapshot sorter real_msync (with_mappings m rs) r.start (r.end - r.start) >>= λ m'.
          some (m', true))
      else some (m, real_fsync)

-- `fdatasync`
unfoldable pub intercepted_fdatasync :
    Sorter → (ℕ → ℕ → Bool) → Bool → List (ℕ × Mapping) → Machine → ℕ → Option (Machine × Bool)
intercepted_fdatasync sorter real_msync real_fdatasync rs m fd = elim (find_mapping rs fd) [
  | none ↦ some (m, real_fdatasync)
  | some r ↦
      if addr_in_range m.rt (r.start + 1)
      then (snapshot sorter real_msync (with_mappings m rs) r.start (r.end - r.start) >>= λ m'.
          some (m', true))
      else some (m, real_fdatasync)
]

-- `munmap`: the first range that holds the address is dropped; `none` is the exit if the address is
-- not its start.
unfoldable pub intercepted_munmap : List (ℕ × Mapping) → ℕ → Option (List (ℕ × Mapping))
intercepted_munmap [] addr = some []
intercepted_munmap ((fd, r) ∷ rs) addr =
    let rest = intercepted_munmap rs addr in
    if leb r.start addr && ltb addr r.end
    then (if addr == r.start then some rs else none)
    else rest >>= λ rs'. some ((fd, r) ∷ rs')
