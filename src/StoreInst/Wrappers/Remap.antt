-- ===== src/StoreInst/Wrappers/Remap.antt =====
-- A file on /mnt/pmem0 that is mapped, and mapped again by a later process.
use snapshot_public.Prelude.{
  ℕ, ◌<◌, ◌≡◌, refl, true, false, Option, none, some, List, [], ltb, ◌==◌, if◌then◌else◌, arith,
}
use snapshot_public.StoreInst.Memory.{Mem, memcpy, poke}
use snapshot_public.StoreInst.Recovery.{Dependency, LogFiles, needs_recovery, recover, open_file}
use snapshot_public.StoreInst.Stores.{addr_in_range}
use snapshot_public.StoreInst.PmemFile.{
  pmem0, Stored, Disk, PmemFile, Wrapper, is_pmem, BackingEnv, construct, construct_without,
  create_backing_file, create_backing_file_internal, map_backing_file, finish_backing,
  backing_start, needs_flush, write_first, pmem_backing_start,
}
use snapshot_public.StoreInst.Wrappers.{
  CacheEnv, may_cache, record_mapping, map_to_page_cache, write_dependency, assign_mapping,
  mapping_of, mmap_place, bump_mmap, track_file, intercepted_mmap,
}

-- The kernel maps and advises, in a process with CXL mode on.
pub record IsServing (backing_env : BackingEnv) (cache_env : CacheEnv) (w : Wrapper) : Type 0 where
  pub on : w.rt.cxl_mode_enabled ≡ true
  pub backing_at : ℕ
  pub backing : backing_env.mapped_at ≡ some backing_at
  pub backing_advice : backing_env.madvise_succeeds ≡ true
  pub cache_at : ℕ
  pub cache : cache_env.mmap_result ≡ some cache_at
  pub cache_advice : cache_env.madvise_succeeds ≡ true
  pub tracked : addr_in_range w.rt cache_at ≡ true

-- A named file on /mnt/pmem0, as the constructor gets it.
abbrev pub pmem_file : ℕ → ℕ → PmemFile
pmem_file addr len = record { is_anonymous = false; mount = pmem0; addr = addr; len = len }

abbrev placed : PmemFile → Wrapper → PmemFile
placed f w = record f { addr = mmap_place w }

-- The disk behind a mapping.
abbrev mapped_disk : CacheEnv → PmemFile → Disk → Stored → Disk
mapped_disk cache_env f disk b =
    write_dependency cache_env f (record disk { backing = some (write_first pmem0 b) })

module _ (logs : LogFiles) (backing_env : BackingEnv) (cache_env : CacheEnv) (addr len : ℕ) (fd : ℕ)
    (w : Wrapper) (s : IsServing backing_env cache_env w) where
  abbrev f : PmemFile
  f = pmem_file addr len

  -- A mapping of which the recovery and the creation of the backing file are known.
  mmap_lem :
      (sent : Option ℕ) (disk disk1 disk2 : Disk) (b : Stored)
      → construct logs f disk ≡ some disk1
      → create_backing_file sent (placed f w) disk1 ≡ some disk2
      → disk2.backing ≡ some b
      → (w' : Wrapper) × (intercepted_mmap logs backing_env sent cache_env f (some fd) disk w
          ≡ some (s.cache_at, mapped_disk cache_env (placed f w) disk2 b, w'))
  unfolding intercepted_mmap track_file map_backing_file finish_backing map_to_page_cache
      record_mapping may_cache is_pmem backing_start needs_flush bump_mmap
  mmap_lem sent disk disk1 disk2 b e1 e2 e3 = (
    record (bump_mmap len w) {
      backing_file_start = pmem_backing_start;
      mapped_addr =
          assign_mapping w.mapped_addr fd
            (mapping_of (placed f w) (record disk2 { backing = some (write_first pmem0 b) }));
    },
    simp (s.on, e1, e2, e3, s.backing, s.backing_advice, s.cache, s.cache_advice, s.tracked),
  )

construct_new :
    (logs : LogFiles) (f : PmemFile) (disk : Disk)
    → f.is_anonymous ≡ false
    → disk.backing ≡ none
    → needs_recovery logs disk.dependencies ≡ []
    → construct logs f disk ≡ some disk
unfolding construct construct_without
construct_new logs f disk named new idle = simp (named, new, idle)

construct_old :
    (logs : LogFiles) (f : PmemFile) (disk : Disk) (b : Stored)
    → f.is_anonymous ≡ false
    → disk.backing ≡ some b
    → needs_recovery logs disk.dependencies ≡ []
    → construct logs f disk ≡ some (record disk { backing = some b })
unfolding construct open_file recover
construct_old logs f disk b named old idle = simp (named, old, idle)

create_new :
    (f : PmemFile) (disk : Disk)
    → disk.backing ≡ none
    → 0 < disk.original.size
    → create_backing_file none f disk ≡ some (record disk { backing = some disk.original })
unfolding create_backing_file create_backing_file_internal
create_new f disk new size =
    let nonempty : (disk.original.size == 0) ≡ false = ground arith in
    rw (create_backing_file, new) (simp (nonempty))

copied_first : (m : Mem) (n : ℕ) → 0 < n → memcpy m 0 (poke m 0 1) 0 n 0 ≡ 1
unfolding memcpy poke
copied_first m n h = ground arith

copied_rest : (m : Mem) (n i : ℕ) → 0 < i → memcpy m 0 (poke m 0 1) 0 n i ≡ m i
unfolding memcpy poke
copied_rest m n i h = ground arith

-- Mapping a file changes its first byte. Take a file on /mnt/pmem0 that is not empty and has no
-- backing file, in CXL mode, with no active log. One process maps it and ends without a store or a
-- snapshot, and a second one maps it. Both calls succeed if the kernel serves them and `sendfile`
-- transfers a byte or more, and the first byte of the file is then 1, whatever it was, and the
-- others are as they were.
pub remap_changes_first :
    (logs : LogFiles) (backing_env backing_env' : BackingEnv) (cache_env cache_env' : CacheEnv)
    (addr len fd fd' sent : ℕ) (disk : Disk) (w w' : Wrapper)
    → IsServing backing_env cache_env w
    → IsServing backing_env' cache_env' w'
    → disk.backing ≡ none
    → 0 < disk.original.size
    → 0 < sent
    → ((ds : List Dependency) → needs_recovery logs ds ≡ [])
    → (p p' : ℕ) × (disk1 disk2 : Disk) × (w1 w2 : Wrapper) × (intercepted_mmap logs backing_env
          none cache_env
          (pmem_file addr len)
          (some fd)
          disk
          w
        ≡ some (p, disk1, w1))
      × (intercepted_mmap logs backing_env'
            (some sent)
            cache_env'
            (pmem_file addr len)
            (some fd')
            disk1
            w'
          ≡ some (p', disk2, w2))
      × (disk2.original.content 0 ≡ 1)
      × ((i : ℕ) → 0 < i → disk2.original.content i ≡ disk.original.content i)
unfolding create_backing_file create_backing_file_internal write_dependency write_first
remap_changes_first logs benv benv' cenv cenv' addr len fd fd' sent disk w w' s s' new size pos
      idle =
    let f = pmem_file addr len in
    let old = record disk { backing = some disk.original } in
    let (w1, e1) =
      mmap_lem logs benv cenv addr len fd w s none disk disk old disk.original
        (construct_new logs f disk refl new (idle disk.dependencies))
        (create_new (placed f w) disk new size) refl in
    let disk1 = mapped_disk cenv (placed f w) old disk.original in
    let disk2 = record disk1 {
      original = record {
        content = memcpy disk.original.content 0 (poke disk.original.content 0 1) 0 sent;
        size = if ltb disk.original.size sent then sent else disk.original.size;
      };
    } in
    let (w2, e2) =
      mmap_lem logs benv' cenv' addr len fd' w' s' (some sent) disk1 disk1 disk2
        (write_first pmem0 disk.original)
        (construct_old logs f disk1 (write_first pmem0 disk.original) refl refl
          (idle disk1.dependencies))
        refl refl in
    (
      s.cache_at,
      s'.cache_at,
      disk1,
      mapped_disk cenv' (placed f w') disk2 (write_first pmem0 disk.original),
      w1,
      w2,
      e1,
      e2,
      copied_first disk.original.content sent pos,
      λ i h. copied_rest disk.original.content sent i h,
    )
