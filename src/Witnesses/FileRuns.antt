-- ===== src/Witnesses/FileRuns.antt =====
-- Two files are opened and get a region each.
use snapshot_public.Prelude.{ℕ, ◌+◌, ◌≤◌, ◌≡◌, ◌≢◌, ◌⊎◌, refl, sym, some, [], ◌∷◌, arith}
use snapshot_public.StoreInst.Memory.{add64}
use snapshot_public.CxlFs.Files.{
  Pathname, Table, FdDesc, find_fd, find_path, open_pathname, lseek, seek_set, mmap, map_desc,
  has_flag, ok, Pool, get_ctrlr, malloc,
}
use snapshot_public.CxlFs.Files.Opening.{IsTable, IsOpen, open_pathname_opens}
use snapshot_public.CxlFs.Files.Regions.{IsApart, lseek_allocates, some-inj}
use snapshot_public.CxlFs.Files.Malloc.{malloc_allocator, pool_top}
use snapshot_public.CxlFs.Files.Mapping.{mmap_apart}
use snapshot_public.Witnesses.PagingRuns.{full, mapping}

-- Descriptors 1 and 2 are files of 4096 and 100 bytes.
abbrev two_files : Table
two_files = record {
  path_to_fd = ((97 ∷ []), 1) ∷ ((98 ∷ []), 2) ∷ [];
  fd_to_path = (1, 97 ∷ []) ∷ (2, 98 ∷ []) ∷ [];
  fd_desc =
      (1, record { fd = 1; region = 40960; len = 4096; va_alloc_off = 0; seek = 4096 })
      ∷ (2, record { fd = 2; region = 45056; len = 100; va_alloc_off = 0; seek = 100 })
      ∷ (3, record { fd = 3; region = 0; len = 0; va_alloc_off = 0; seek = 0 })
      ∷ [];
}

abbrev no_files : Table
no_files = record { path_to_fd = []; fd_to_path = []; fd_desc = [] }

no_files-IsTable : IsTable no_files
unfolding find_fd find_path
no_files-IsTable = record {
  named = λ p fd e. cc;
  numbered = λ p fd e. cc;
  described = λ p fd e. cc;
}

abbrev one_file : Table
one_file = (open_pathname no_files (97 ∷ [])).1

open_pathname_opens_example :
    IsTable (open_pathname one_file (98 ∷ [])).1
    × IsOpen (open_pathname one_file (98 ∷ [])).1 (98 ∷ []) (open_pathname one_file (98 ∷ [])).0
    × ((q : Pathname) (fd : ℕ)
        → find_path one_file.path_to_fd q ≡ some fd
        → find_path (open_pathname one_file (98 ∷ [])).1.path_to_fd q ≡ some fd)
    × (open_pathname (open_pathname one_file (98 ∷ [])).1 (98 ∷ [])
        ≡ open_pathname one_file (98 ∷ []))
open_pathname_opens_example =
    open_pathname_opens one_file (98 ∷ [])
      (open_pathname_opens no_files (97 ∷ []) no_files-IsTable).0

two_files-IsApart : IsApart two_files 45156
unfolding find_fd
two_files-IsApart = record {
  inside = λ fd d e. ground arith;
  apart = λ fd fd' d d' e e' ne h h'. ground arith;
}

-- The regions of the two files are allocated.
abbrev pool : Pool
pool = record { ctrlr = some full; bump_off = 4196 }

lseek_allocates_example :
    (t' : Table) × (lseek (malloc mapping (λ _ _. 0)) 3 8192 seek_set two_files pool
      ≡ some (ok 8192, t', record { ctrlr = some full; bump_off = 12388 }))
    × IsApart t' (pool_top (record { ctrlr = some full; bump_off = 12388 }))
    × ((d' : FdDesc) × (find_fd t'.fd_desc 3 ≡ some d')
        × (d'.len ≡ 8192)
        × (d'.region ≡ 45156)
        × (d'.seek ≡ 8192))
    × ((fd' : ℕ) → 3 ≢ fd' → find_fd t'.fd_desc fd' ≡ find_fd two_files.fd_desc fd')
unfolding find_fd get_ctrlr malloc add64 pool_top
lseek_allocates_example =
    lseek_allocates (malloc_allocator mapping (λ _ _. 0)) two_files pool
      (record { ctrlr = some full; bump_off = 12388 }) 3 8192 45156
      (record { fd = 3; region = 0; len = 0; va_alloc_off = 0; seek = 0 }) two_files-IsApart refl
      refl (omega arith) (λ c e. rw (sym (some-inj e)) (omega arith)) refl

mmap_apart_example : (40960 + 4096 ≤ 45056) ⊎ (45056 + 64 ≤ 40960)
unfolding mmap map_desc has_flag find_fd add64
mmap_apart_example =
    mmap_apart two_files 45156 4096 64 1 1 1 2 0 32 40960 45056 two_files-IsApart (omega arith)
      (omega arith) (omega arith) (omega arith) refl (omega arith) (omega arith) refl
