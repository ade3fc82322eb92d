-- ===== src/CxlFs/Controller/Overflow.antt =====
-- `handler` where the device refuses the write of the evicted page.
use snapshot_public.Prelude.{
  ℕ, ◌+◌, ◌*◌, ◌<◌, ◌≡◌, inl, inr, true, false, ◌&&◌, none, some, ltb, leb, ◌==◌, Bool-cases, arith,
}
use snapshot_public.CxlFs.Controller.{
  Controller, EvictEnv, refresh_dist, evict_target, evict_a_page, page_index, page_read,
  notify_page_fault, handler,
}
use snapshot_public.CxlFs.Controller.Pages.{choose_target-some}
use snapshot_public.CxlFs.Controller.Paging.{IsPaged, refreshed}
use snapshot_public.CxlFs.Controller.Faults.{IsFault, filled, handler_lem}

refused :
    (env : EvictEnv) (c : Controller)
    → env.write_accepted ≡ false
    → IsPaged c
    → 0 < c.used_pages
    → evict_a_page env c ≡ some (refresh_dist env c, false)
unfolding evict_a_page evict_target
refused env c w p h =
    let r = refresh_dist env c in
    let q = refreshed env c p in
    let u = q.paged.used in
    let same = q.same_used in let (t, e) = choose_target-some env r (omega arith) in simp (e, w)

overfull :
    (env : EvictEnv) (place : ℕ) (c : Controller)
    → c.max_active_pg_cnt < c.used_pages
    → handler env place c ≡ none
unfolding handler notify_page_fault
overfull env place c h =
    let le : leb c.used_pages c.max_active_pg_cnt ≡ false = ground arith in
    elim (Bool-cases (leb c.shm_start place && ltb place (c.shm_start + c.shm_size))) [
      | inl e ↦ simp (e, le)
      | inr e ↦ simp e
    ]

-- With right bookkeeping and as many pages in memory as the limit, of at least one page, allows, a
-- fault of a page in the range that is not in memory, whose eviction the device refuses while
-- `mprotect` succeeds, is served with one page more in memory than the limit, and every later
-- fault, whatever the machine answers, ends the program.
pub handler_overflows :
    (env : EvictEnv) (place : ℕ) (c : Controller)
    → env.write_accepted ≡ false
    → env.mprotect_succeeds ≡ true
    → IsPaged c
    → c.used_pages ≡ c.max_active_pg_cnt
    → 0 < c.max_active_pg_cnt
    → IsFault c place
    → (c' : Controller) × (handler env place c ≡ some c')
      × (c'.used_pages ≡ c'.max_active_pg_cnt + 1)
      × ((env' : EvictEnv) (place' : ℕ) → handler env' place' c' ≡ none)
handler_overflows env place c w m p full pos f =
    let r = refresh_dist env c in
    let q = refreshed env c p in
    let same = q.same_used in
    let limit = q.kept.limit in
    let idx = page_index c place in
    let page = page_read env.wrong_page (r.blk (idx * 8)) in
    let at_limit : (c.used_pages == c.max_active_pg_cnt) ≡ true = ground arith in
    (
      filled idx page r,
      handler_lem env place c r m (omega arith) p.aligned f q.kept.start
          (simp (at_limit, refused env c w p (omega arith))),
      omega arith,
      λ env' place'. overfull env' place' (filled idx page r) (omega arith),
    )
