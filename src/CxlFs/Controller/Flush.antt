-- ===== src/CxlFs/Controller/Flush.antt =====
-- `flush_cache` and `resize_cache`: every page in memory goes to the device and the range is mapped
-- anew.
use snapshot_public.Prelude.{
  ℕ, ◌*◌, ◌≤◌, ◌≡◌, refl, sym, ap, ◌∙◌, inl, inr, true, false, some, List, [], ◌∷◌, ltb, ◌==◌,
  if◌then◌else◌, Bool-cases, arith,
}
use snapshot_public.CxlFs.Controller.{
  Page, page_size, WriteOutcome, written, page_written, Controller, InitEnv, contains, update, init,
  map_range, write_back, flush_cache, resize_cache,
}
use snapshot_public.CxlFs.Controller.Paging.{view, IsPaged, IsKept}

-- The machine maps the range where it was, and every write is done.
pub record IsMapped (outcome : ℕ → WriteOutcome) (env : InitEnv) (c : Controller) : Type 0 where
  pub done : (lba : ℕ) → outcome lba ≡ written
  pub mmap : env.mmap_result ≡ some c.shm_start
  pub mprotect : env.mprotect_succeeds ≡ true
  pub move_range : env.move_range_succeeds ≡ true
  pub running : c.monitor_thread_running ≡ true
  pub nonempty : (c.shm_pg_cnt == 0) ≡ false
  pub whole : c.shm_size ≡ c.shm_pg_cnt * page_size

write_back_lem :
    (outcome : ℕ → WriteOutcome) (shm : ℕ → Page) (pgs : List ℕ) (blk : ℕ → Page)
    → ((lba : ℕ) → outcome lba ≡ written)
    → (blk' : ℕ → Page) × (write_back outcome shm pgs blk ≡ some blk')
      × ((pg : ℕ) → blk' (pg * 8) ≡ (if contains pgs pg then shm pg else blk (pg * 8)))
unfolding write_back page_written contains update
write_back_lem outcome shm [] blk h = (blk, refl, λ pg. refl)
write_back_lem outcome shm (x ∷ pgs) blk h =
    let (blk', e, k) = write_back_lem outcome shm pgs (update blk (x * 8) (shm x)) h in
    (blk', simp (h (x * 8), e), λ pg. ground (arith, k pg))

-- The controller after a flush.
abbrev flushed : (ℕ → Page) → Controller → Controller
flushed blk c = record c {
  faults = 0;
  shm_size = c.shm_pg_cnt * page_size;
  mapped_pages = [];
  used_pages = 0;
  blk = blk;
  shm = λ _ _. 0;
  access = λ _. false;
}

init_lem :
    (outcome : ℕ → WriteOutcome) (env : InitEnv) (c : Controller) (blk : ℕ → Page)
    → IsMapped outcome env c
    → init env c.max_active_pg_cnt c.shm_pg_cnt (record c { blk = blk; mapped_pages = [] })
      ≡ some (flushed blk c, true)
unfolding init map_range
init_lem outcome env c blk m =
    let same : (c.shm_start == c.shm_start) ≡ true = ground arith in
    let running = m.running in rw m.mmap (ground arith)

-- A flush on which the device and the machine deliver returns, takes every page out of memory, and
-- changes no page as an access sees it.
flush_cache_lem :
    (outcome : ℕ → WriteOutcome) (env : InitEnv) (c : Controller)
    → IsMapped outcome env c
    → IsPaged c
    → (c' : Controller) × (flush_cache outcome env c ≡ some c')
      × IsPaged c'
      × IsKept c c'
      × (c'.used_pages ≡ 0)
unfolding flush_cache contains
flush_cache_lem outcome env c m p =
    let (blk, e, k) = write_back_lem outcome c.shm c.mapped_pages c.blk m.done in
    (
      flushed blk c,
      simp (m.nonempty, e, init_lem outcome env c blk m),
      record { nodup = tt; used = refl; mapped = λ pg. refl; aligned = p.aligned },
      record {
        content = λ pg. k pg ∙ ap (λ b. if b then c.shm pg else c.blk (pg * 8)) (sym (p.mapped pg));
        start = refl;
        size = sym m.whole;
        limit = refl;
      },
      refl,
    )

-- Resizing the cache, up or down, changes no page, whose content is the memory's while it is there,
-- and what the device took last for it otherwise: from right bookkeeping, with every write done
-- without an error, a range of at least one page whose size is that of its pages, the fault handler
-- running, and a machine that maps the range where it was, it returns with the new limit, right
-- bookkeeping, and no more pages in memory than the new limit, if there were no more than the old
-- limit before.
pub resize_cache_keeps :
    (outcome : ℕ → WriteOutcome) (env : InitEnv) (pg_cnt : ℕ) (c : Controller)
    → IsMapped outcome env c
    → IsPaged c
    → c.used_pages ≤ c.max_active_pg_cnt
    → (c' : Controller) × (resize_cache outcome env pg_cnt c ≡ some c')
      × (c'.max_active_pg_cnt ≡ pg_cnt)
      × (c'.used_pages ≤ pg_cnt)
      × IsPaged c'
      × ((pg : ℕ) → view c' pg ≡ view c pg)
unfolding resize_cache
resize_cache_keeps outcome env pg_cnt c m p le =
    let r = record c { max_active_pg_cnt = pg_cnt } in
    let m' : IsMapped outcome env r = record {
      done = m.done;
      mmap = m.mmap;
      mprotect = m.mprotect;
      move_range = m.move_range;
      running = m.running;
      nonempty = m.nonempty;
      whole = m.whole;
    } in
    let p' : IsPaged r = record {
      nodup = p.nodup;
      used = p.used;
      mapped = p.mapped;
      aligned = p.aligned;
    } in
    elim (Bool-cases (ltb pg_cnt c.max_active_pg_cnt)) [
      | inl e ↦
          let (c', eq, q, k, z) = flush_cache_lem outcome env r m' p' in
          (c', simp (e, eq), k.limit, omega arith, q, k.content)
      | inr e ↦ (r, simp e, refl, ground arith, p', λ pg. refl)
    ]
