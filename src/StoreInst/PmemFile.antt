-- ===== src/StoreInst/PmemFile.antt =====
-- recovery.cc, the rest of `PmemFile`: the backing file beside a mapped file, and the mapping of
-- both. The answers of the kernel are arguments. The flags of `mmap` are a record of its bits.

use snapshot_public.Prelude.{
  ℕ, ◌+◌, Bool, true, false, not, ◌&&◌, ◌||◌, Option, none, some, List, [], ◌∷◌, ltb, ◌==◌,
  if◌then◌else◌, ◌>>=◌,
}
use snapshot_public.StoreInst.Memory.{Mem, memcpy, poke}
use snapshot_public.StoreInst.Log.{Runtime}
use snapshot_public.StoreInst.Recovery.{Dependency, LogFiles, needs_recovery, open_file}
use snapshot_public.StoreInst.Snapshot.{Mapping}

-- Where a file lies: `is_prefix` of its name with the mount points.
pub data Mount : Type 0 where
  pmem0 cxl0 mss0 elsewhere : Mount

-- A file on disk: its bytes, and its size.
pub record Stored : Type 0 where
  pub content : Mem
  pub size : ℕ

-- The files of a `PmemFile`: the file itself, the one with the suffix .cxlbuf_backing, and the lines
-- of the one with the suffix -dependencies.txt.
pub record Disk : Type 0 where
  pub original : Stored
  pub backing : Option Stored
  pub dependencies : List Dependency

-- `PmemFile`; an anonymous mapping has an empty path.
pub record PmemFile : Type 0 where
  pub is_anonymous : Bool
  pub mount : Mount
  pub addr : ℕ
  pub len : ℕ

-- The globals of the wrappers. `mapped_addr` is keyed by the file descriptor; 0 stands for the null
-- pointer.
pub record Wrapper : Type 0 where
  pub rt : Runtime
  pub mmap_start : ℕ
  pub backing_file_start : ℕ
  pub mapped_addr : List (ℕ × Mapping)

-- `MAP_SHARED_VALIDATE` is the bits `shared` and `private` together.
pub record MapFlags : Type 0 where
  pub shared : Bool
  pub private : Bool
  pub sync : Bool
  pub fixed_noreplace : Bool
  pub rest : ℕ

unfoldable pub is_pmem : Mount → Bool
is_pmem pmem0 = true
is_pmem cxl0 = true
is_pmem mss0 = true
is_pmem elsewhere = false

-- What the constructor does without a backing file: `recover` exits where it is called.
unfoldable pub construct_without : List Dependency → Disk → Option Disk
construct_without [] disk = some disk
construct_without (d ∷ ds) disk = none

-- The constructor: recovery of a named file, on its backing file. `none` is an exit.
unfoldable pub construct : LogFiles → PmemFile → Disk → Option Disk
construct logs f disk = if f.is_anonymous then some disk else elim disk.backing [
  | none ↦ construct_without (needs_recovery logs disk.dependencies) disk
  | some b ↦ open_file logs f.len disk.dependencies b.content >>= λ content.
      some (record disk { backing = some (record b { content = content }) })
]

-- `create_backing_file_internal`: a file with one byte at the offset `len + 1`, or a copy.
unfoldable pub create_backing_file_internal : PmemFile → Disk → Disk
create_backing_file_internal f disk =
    if disk.original.size == 0
    then record disk { backing = some (record { content = λ _. 0; size = f.len + 2 }) }
    else record disk { backing = some disk.original }

-- `create_backing_file`; `sent` is the number of bytes that `sendfile` transferred, `none` its
-- failure, at which the program exits.
unfoldable pub create_backing_file : Option ℕ → PmemFile → Disk → Option Disk
create_backing_file sent f disk = elim disk.backing [
  | none ↦ some (create_backing_file_internal f disk)
  | some b ↦ sent >>= λ n. some (record disk {
    original = record {
      content = memcpy disk.original.content 0 b.content 0 n;
      size = if ltb disk.original.size n then n else disk.original.size;
    };
  })
]

-- What the kernel and the allocators answer to `map_backing_file`: the address of the backing
-- memory (`none` is a failure of the mapping or of the temporary one), and whether `madvise` and
-- the flush of the paging cache succeed.
pub record BackingEnv : Type 0 where
  pub mapped_at : Option ℕ
  pub madvise_succeeds : Bool
  pub flush_succeeds : Bool

-- The address at which the backing file of a file on /mnt/pmem0 is taken to be mapped.
abbrev pub pmem_backing_start : ℕ
pmem_backing_start = 0x20000000000

-- `bck_addr`
abbrev pub backing_distance : ℕ
backing_distance = 0x10000000000

-- `backing_file_start` as `map_backing_file` sets it; `none` is the exit of the assertion that there
-- was none, and of a file that lies elsewhere.
unfoldable pub backing_start : Mount → ℕ → ℕ → Option ℕ
backing_start pmem0 old mapped = some pmem_backing_start
backing_start cxl0 old mapped = if old == 0 then some mapped else none
backing_start mss0 old mapped = if old == 0 then some mapped else none
backing_start elsewhere old mapped = none

unfoldable pub needs_flush : Mount → Bool
needs_flush pmem0 = false
needs_flush cxl0 = false
needs_flush mss0 = true
needs_flush elsewhere = false

-- The last line: the first byte of the backing memory is written. On /mnt/pmem0 the mapping is
-- shared, so that it is the file's byte; elsewhere the backing memory is a copy.
unfoldable pub write_first : Mount → Stored → Stored
write_first pmem0 b = record b { content = poke b.content 0 1 }
write_first cxl0 b = b
write_first mss0 b = b
write_first elsewhere b = b

-- The end of `map_backing_file`, `start` being the address of the backing memory.
unfoldable pub finish_backing :
    BackingEnv → PmemFile → Disk → Stored → Wrapper → ℕ → Option (Disk × Wrapper)
finish_backing env f disk b w start =
    if env.madvise_succeeds && (not (needs_flush f.mount) || env.flush_succeeds)
    then some (
      record disk { backing = some (write_first f.mount b) },
      record w { backing_file_start = start },
    )
    else none

-- `map_backing_file`
unfoldable pub map_backing_file : BackingEnv → PmemFile → Disk → Wrapper → Option (Disk × Wrapper)
map_backing_file env f disk w = do
  b ← disk.backing
  mapped ← env.mapped_at
  start ← backing_start f.mount w.backing_file_start mapped
  finish_backing env f disk b w start
