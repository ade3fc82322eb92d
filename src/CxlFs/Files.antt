-- ===== src/CxlFs/Files.antt =====
-- libcxlfs.cc: files whose content is a region of allocated memory. Descriptors are never closed.
-- libvramfs.cc is the same code over the allocator of libvram, so the allocator is a parameter;
-- `malloc` is the one of libcxlfs. An `off_t` stands for its 64-bit pattern.
pub mod Malloc
pub mod Mapping
pub mod Opening
pub mod Regions
use snapshot_public.Prelude.{
  ℕ, suc, zero, ◌+◌, ◌*◌, ◌^◌, ◌/◌, ◌%◌, Bool, true, false, not, ◌&&◌, ◌||◌, Option, none, some,
  List, [], ◌∷◌, ltb, ◌==◌, if◌then◌else◌, length, ◌>>=◌,
}
use snapshot_public.StoreInst.Memory.{word, add64}
use snapshot_public.CxlFs.Controller.{
  Page, page_size, Controller, InitEnv, WriteOutcome, init, flush_cache,
}

-- A file name, as the codes of its characters.
abbrev pub Pathname : Type 0
Pathname = List ℕ

unfoldable pub same_pathname : Pathname → Pathname → Bool
same_pathname [] [] = true
same_pathname [] (y ∷ ys) = false
same_pathname (x ∷ xs) [] = false
same_pathname (x ∷ xs) (y ∷ ys) = (x == y) && same_pathname xs ys

-- `fd_desc_t`
pub record FdDesc : Type 0 where
  pub fd : ℕ
  pub region : ℕ
  pub len : ℕ
  pub va_alloc_off : ℕ
  pub seek : ℕ

-- The three maps; a later entry for a key hides an earlier one.
pub record Table : Type 0 where
  pub path_to_fd : List (Pathname × ℕ)
  pub fd_to_path : List (ℕ × Pathname)
  pub fd_desc : List (ℕ × FdDesc)

unfoldable pub find_fd {ℓ} : {A : Type ℓ} → List (ℕ × A) → ℕ → Option A
find_fd [] fd = none
find_fd ((key, v) ∷ m) fd = if key == fd then some v else find_fd m fd

unfoldable pub find_path : List (Pathname × ℕ) → Pathname → Option ℕ
find_path [] pathname = none
find_path ((key, v) ∷ m) pathname =
    if same_pathname key pathname then some v else find_path m pathname

unfoldable pub is_some {ℓ} : {A : Type ℓ} → Option A → Bool
is_some none = false
is_some (some a) = true

-- The loop of `get_free_fd`, for a number of rounds.
unfoldable pub next_free : ℕ → List (ℕ × Pathname) → ℕ → ℕ
next_free zero fd_to_path result = result
next_free (suc rounds) fd_to_path result =
    let rest = next_free rounds fd_to_path (result + 1) in
    if is_some (find_fd fd_to_path result) then rest else result

-- `get_free_fd`: one round more than there are descriptors is enough.
unfoldable pub get_free_fd : Table → ℕ
get_free_fd t = next_free (length t.fd_to_path + 1) t.fd_to_path 1

unfoldable pub fd_exists : Table → ℕ → Bool
fd_exists t fd = is_some (find_fd t.fd_desc fd)

abbrev pub new_desc : ℕ → FdDesc
new_desc fd = record { fd = fd; region = 0; len = 0; va_alloc_off = 0; seek = 0 }

unfoldable pub create_fd : Table → Pathname → ℕ × Table
create_fd t pathname =
    let fd = get_free_fd t in
    (
      fd,
      record {
        path_to_fd = (pathname, fd) ∷ t.path_to_fd;
        fd_to_path = (fd, pathname) ∷ t.fd_to_path;
        fd_desc = (fd, new_desc fd) ∷ t.fd_desc;
      },
    )

-- `open`; the flags are ignored.
unfoldable pub open_pathname : Table → Pathname → ℕ × Table
open_pathname t pathname = elim (find_path t.path_to_fd pathname) [
  | some fd ↦ (fd, t)
  | none ↦ create_fd t pathname
]

-- The errors that the functions report.
pub data Errno : Type 0 where
  ebadf enosys enotsup einval : Errno

-- A call that returns: a result, or -1 (for a pointer MAP_FAILED) with its `errno`.
pub data Result : Type 0 where
  ok : ℕ → Result
  error : Errno → Result

abbrev pub seek_set : ℕ
seek_set = 0

-- The descriptor's entry, for the table's own loops.
unfoldable pub put_desc : Table → ℕ → FdDesc → Table
put_desc t fd desc = record t { fd_desc = (fd, desc) ∷ t.fd_desc }

module _ {A : Type 0} (allocate : ℕ → A → Option (ℕ × A)) where
  -- The end of `lseek`: a file that grows gets its region.
  unfoldable pub grow : Table → ℕ → FdDesc → ℕ → A → Option (Result × Table × A)
  grow t fd desc new_off a =
      if ltb desc.len new_off
      then (do
        (region, a') ← allocate new_off a
        some (ok new_off, put_desc t fd (record desc { len = new_off; region = region }), a'))
      else some (ok new_off, put_desc t fd desc, a)

  -- `lseek`; `none` is the exit of a failed assertion, or in the allocator.
  unfoldable pub lseek : ℕ → ℕ → ℕ → Table → A → Option (Result × Table × A)
  lseek fd offset whence t a = elim (find_fd t.fd_desc fd) [
    | none ↦ some (error ebadf, t, a)
    | some desc ↦
        if not (whence == seek_set)
        then some (error enosys, t, a)
        else if not (desc.len == 0)
        then none
        else grow t fd (record desc { seek = offset }) offset a
  ]

abbrev pub map_private : ℕ
map_private = 0x2

abbrev pub map_fixed : ℕ
map_fixed = 0x10

abbrev pub map_anonymous : ℕ
map_anonymous = 0x20

abbrev pub map_fixed_noreplace : ℕ
map_fixed_noreplace = 0x100000

-- `flags & flag` for a flag of one bit
unfoldable pub has_flag : ℕ → ℕ → Bool
has_flag flags flag = flags / flag % 2 == 1

-- The part of `mmap` behind the look-up of the descriptor.
unfoldable pub map_desc : FdDesc → ℕ → ℕ → ℕ → Result
map_desc desc length flags offset =
    if has_flag flags map_fixed || has_flag flags map_fixed_noreplace
    then error enotsup
    else if has_flag flags map_private || has_flag flags map_anonymous
    then error enotsup
    else if ltb desc.len (add64 length offset)
    then error einval
    else ok (add64 desc.region desc.va_alloc_off)

-- `mmap`
unfoldable pub mmap : Table → ℕ → ℕ → ℕ → ℕ → Result
mmap t length flags fd offset = elim (find_fd t.fd_desc fd) [
  | none ↦ error ebadf
  | some desc ↦ map_desc desc length flags offset
]

-- The allocator's state: the controller, once there is one, and what was allocated.
pub record Pool : Type 0 where
  pub ctrlr : Option Controller
  pub bump_off : ℕ

abbrev pub mem_size : ℕ
mem_size = 16 * 2 ^ 30

abbrev pub cache_size : ℕ
cache_size = 128 * 2 ^ 20

-- `new Controller`, on a device with this content.
abbrev pub new_controller : (ℕ → Page) → Controller
new_controller blk = record {
  faults = 0;
  max_active_pg_cnt = 2;
  shm_pg_cnt = 64 * 1024;
  shm_size = 0;
  shm_start = 0;
  mapped_pages = [];
  used_pages = 0;
  ubd_wr_cq = [];
  monitor_thread_running = false;
  dist = [];
  dist_age = 100;
  max_dist_age = 100;
  blk = blk;
  shm = λ _ _. 0;
  access = λ _. false;
}

-- The controller that `malloc` uses; the result of `init` is ignored.
unfoldable pub get_ctrlr : InitEnv → (ℕ → Page) → Pool → Option Controller
get_ctrlr env blk pool = elim pool.ctrlr [
  | some c ↦ some c
  | none ↦ init env (cache_size / 4096) (mem_size / 4096) (new_controller blk) >>= λ r. some r.0
]

-- `malloc`
unfoldable pub malloc : InitEnv → (ℕ → Page) → ℕ → Pool → Option (ℕ × Pool)
malloc env blk bytes pool = do
  c ← get_ctrlr env blk pool
  some (
    add64 c.shm_start pool.bump_off,
    record { ctrlr = some c; bump_off = add64 pool.bump_off bytes },
  )

-- `flush_caches`
unfoldable pub flush_caches : (ℕ → WriteOutcome) → InitEnv → Pool → Option Pool
flush_caches outcome env pool = elim pool.ctrlr [
  | none ↦ some pool
  | some c ↦ flush_cache outcome env c >>= λ c'. some (record pool { ctrlr = some c' })
]
