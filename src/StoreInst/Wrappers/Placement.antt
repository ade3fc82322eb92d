-- ===== src/StoreInst/Wrappers/Placement.antt =====
-- Where `mmap` places the files and what it leaves on disk.
use snapshot_public.Prelude.{
  ℕ, ◌+◌, ◌%◌, ◌≤◌, ◌<◌, ◌≡◌, ◌≢◌, ◌↔◌, ap, ◌∙◌, inl, inr, true, false, Option, none, some, ◌>>=◌,
  arith, Option-cases,
}
use snapshot_public.StoreInst.Recovery.{LogFiles}
use snapshot_public.StoreInst.Apply.Copies.{mirror}
use snapshot_public.StoreInst.Snapshot.{default_start}
use snapshot_public.StoreInst.PmemFile.{
  pmem0, cxl0, Disk, PmemFile, Wrapper, is_pmem, BackingEnv, construct, create_backing_file,
  map_backing_file, finish_backing, backing_start, backing_distance,
}
use snapshot_public.StoreInst.Wrappers.{
  CacheEnv, may_cache, map_to_page_cache, mmap_place, bump_mmap, track_file, intercepted_mmap,
}

-- The next tracked file is placed behind this one, less than a page further than need be, at the
-- same offset in a page, if this one is not placed at the null address.
pub bump_mmap_places :
    (w : Wrapper) (len : ℕ)
    → mmap_place w ≢ 0
    → (mmap_place w + len ≤ mmap_place (bump_mmap len w))
      × (mmap_place (bump_mmap len w) < mmap_place w + len + 4096)
      × (mmap_place (bump_mmap len w) % 4096 ≡ mmap_place w % 4096)
unfolding bump_mmap mmap_place
bump_mmap_places w len h = ground arith

-- On /mnt/pmem0 the copies of `snapshot` of an address in the tracked memory go where the backing
-- file is mapped, if and only if the tracked memory begins at its default address.
pub backing_start_matches :
    (start_addr x old mapped b : ℕ)
    → start_addr ≤ x
    → backing_start pmem0 old mapped ≡ some b
    → (mirror start_addr b x ≡ x + backing_distance) ↔ (start_addr ≡ default_start)
unfolding backing_start
backing_start_matches start_addr x old mapped b h e = ground arith

map_backing_file-rt :
    (env : BackingEnv) (f : PmemFile) (disk : Disk) (w : Wrapper) (r : Disk × Wrapper)
    → map_backing_file env f disk w ≡ some r
    → r.1.rt ≡ w.rt
unfolding map_backing_file finish_backing
map_backing_file-rt env f disk w r h = ground arith

map_to_page_cache-cxl0 :
    (env : CacheEnv) (f : PmemFile) (fd : Option ℕ) (disk : Disk) (w : Wrapper)
    → w.rt.cxl_mode_enabled ≡ true
    → f.mount ≡ cxl0
    → f.is_anonymous ≡ false
    → map_to_page_cache env f fd disk w ≡ none
unfolding map_to_page_cache may_cache
map_to_page_cache-cxl0 env f fd disk w on mount named = simp (on, mount, named)

track_file-cxl0 :
    (env : BackingEnv) (sent : Option ℕ) (f : PmemFile) (disk : Disk) (w : Wrapper)
    (cache_env : CacheEnv) (fd : Option ℕ)
    → w.rt.cxl_mode_enabled ≡ true
    → f.mount ≡ cxl0
    → f.is_anonymous ≡ false
    → (track_file env sent f disk w >>= λ r. map_to_page_cache cache_env r.0 fd r.1 r.2) ≡ none
unfolding track_file bump_mmap
track_file-cxl0 env sent f disk w cache_env fd on mount named =
    elim (Option-cases (create_backing_file sent (record f { addr = mmap_place w }) disk)) [
      | inl e ↦ simp e
      | inr (disk', e) ↦
          elim (Option-cases
            (map_backing_file env (record f { addr = mmap_place w }) disk' (bump_mmap f.len w))) [
              | inl e' ↦ simp (e, e')
              | inr (r, e') ↦
                  let same =
                    map_backing_file-rt env (record f { addr = mmap_place w }) disk'
                      (bump_mmap f.len w) r e' in
                  let on' : r.1.rt.cxl_mode_enabled ≡ true =
                    ap (λ rt. rt.cxl_mode_enabled) same ∙ on in
                  simp (
                    e,
                    e',
                    map_to_page_cache-cxl0 cache_env (record f { addr = mmap_place w }) fd r.0 r.1
                        on' mount named,
                  )
            ]
    ]

-- In CXL mode a file on /mnt/cxl0 cannot be mapped: whatever the kernel answers, `mmap` ends the
-- program.
pub intercepted_mmap_exits :
    (logs : LogFiles) (backing_env : BackingEnv) (sent : Option ℕ) (cache_env : CacheEnv)
    (f : PmemFile) (fd : Option ℕ) (disk : Disk) (w : Wrapper)
    → w.rt.cxl_mode_enabled ≡ true
    → f.mount ≡ cxl0
    → f.is_anonymous ≡ false
    → intercepted_mmap logs backing_env sent cache_env f fd disk w ≡ none
unfolding intercepted_mmap is_pmem
intercepted_mmap_exits logs backing_env sent cache_env f fd disk w on mount named =
    elim (Option-cases (construct logs f disk)) [
      | inl e ↦ simp e
      | inr (disk', e) ↦
          simp
            (e, on, mount, track_file-cxl0 backing_env sent f disk' w cache_env fd on mount named)
    ]
