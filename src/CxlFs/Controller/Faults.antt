-- ===== src/CxlFs/Controller/Faults.antt =====
-- `notify_page_fault` and `handler`: a fault brings its page in, evicting another if it has to.
use snapshot_public.Prelude.{
  ℕ, ◌+◌, ◌-◌, ◌*◌, ◌/◌, ◌%◌, ◌≤◌, ◌<◌, ◌≡◌, refl, sym, ap, ◌∙◌, inl, inr, Bool, true, false, some,
  ◌==◌, if◌then◌else◌, Bool-cases, ◌>>=◌, arith, le→leb, lt→ltb,
}
use snapshot_public.CxlFs.Controller.{
  Page, Controller, EvictEnv, mark, update, evict_a_page, page_index, page_read,
  map_page_from_blkdev, notify_page_fault, fill_page, handler,
}
use snapshot_public.CxlFs.Controller.Pages.{contains-mark, IsNodup-mark, length-mark}
use snapshot_public.CxlFs.Controller.Paging.{
  IsPaged, IsKept, IsServed, IsKept-trans, evict_a_page_frees,
}

-- The controller once page `idx` is read and made accessible.
abbrev pub filled : ℕ → Page → Controller → Controller
filled idx page d = record d {
  faults = d.faults + 1;
  used_pages = d.used_pages + 1;
  mapped_pages = mark d.mapped_pages idx;
  access = update d.access idx true;
  shm = update d.shm idx page;
}

filled-content :
    (access : ℕ → Bool) (shm blk : ℕ → Page) (idx pg : ℕ)
    → access idx ≡ false
    → (if update access idx true pg then update shm idx (blk (idx * 8)) pg else blk (pg * 8))
      ≡ (if access pg then shm pg else blk (pg * 8))
unfolding update
filled-content access shm blk idx pg h = ground arith

filled-IsPaged :
    (idx : ℕ) (page : Page) (d : Controller)
    → IsPaged d
    → d.access idx ≡ false
    → IsPaged (filled idx page d)
unfolding update
filled-IsPaged idx page d p h =
    let absent = sym (p.mapped idx) ∙ h in
    record {
      nodup = IsNodup-mark d.mapped_pages idx p.nodup;
      used = (let e = length-mark d.mapped_pages idx absent in let u = p.used in omega arith);
      mapped = λ pg. ground (arith, contains-mark d.mapped_pages idx pg, p.mapped pg);
      aligned = p.aligned;
    }

filled-IsKept :
    (idx : ℕ) (d : Controller) → d.access idx ≡ false → IsKept d (filled idx (d.blk (idx * 8)) d)
filled-IsKept idx d h = record {
  content = λ pg. filled-content d.access d.shm d.blk idx pg h;
  start = refl;
  size = refl;
  limit = refl;
}

-- The controller as a fault finds it after making room.
record Room (env : EvictEnv) (c : Controller) : Type 0 where
  after : Controller
  returns :
      (if c.used_pages == c.max_active_pg_cnt
        then (evict_a_page env c >>= λ r. some r.0)
        else some c)
      ≡ some after
  paged : IsPaged after
  kept : IsKept c after
  fits : after.used_pages < after.max_active_pg_cnt
  shrunk : (pg : ℕ) → after.access pg ≡ true → c.access pg ≡ true

makes-Room :
    (env : EvictEnv) (c : Controller)
    → IsServed env
    → IsPaged c
    → c.used_pages ≤ c.max_active_pg_cnt
    → 0 < c.max_active_pg_cnt
    → Room env c
makes-Room env c s p le pos = elim (Bool-cases (c.used_pages == c.max_active_pg_cnt)) [
  | inl e ↦
      let full : c.used_pages ≡ c.max_active_pg_cnt = ground arith in
      let v = evict_a_page_frees env c s p (omega arith) in
      let f = v.freed in
      let l = v.kept.limit in
      record {
        after = v.after;
        returns = simp (e, v.returns);
        paged = v.paged;
        kept = v.kept;
        fits = omega arith;
        shrunk = v.shrunk;
      }
  | inr e ↦ record {
    after = c;
    returns = simp e;
    paged = p;
    kept = record { content = λ _. refl; start = refl; size = refl; limit = refl };
    fits = ground arith;
    shrunk = λ pg h. h;
  }
]

aligned_index :
    (start place : ℕ)
    → start % 4096 ≡ 0
    → start ≤ place
    → (place / 4096 * 4096 / 4096 * 4096 - start) / 4096 ≡ (place - start) / 4096
aligned_index start place h le = omega arith

aligned_index_once :
    (start place : ℕ)
    → start % 4096 ≡ 0
    → start ≤ place
    → (place / 4096 * 4096 - start) / 4096 ≡ (place - start) / 4096
aligned_index_once start place h le = omega arith

-- The two indices that the code computes for a place in the range are one.
map_page_lem :
    (env : EvictEnv) (place idx : ℕ) (d : Controller)
    → d.shm_start % 4096 ≡ 0
    → d.shm_start ≤ place
    → idx ≡ (place - d.shm_start) / 4096
    → map_page_from_blkdev env (place / 4096 * 4096) d ≡ (
      page_read env.wrong_page (d.blk (idx * 8)),
      record d { mapped_pages = mark d.mapped_pages idx },
    )
unfolding map_page_from_blkdev page_index
map_page_lem env place idx d al le e = simp (e, aligned_index d.shm_start place al le)

-- A place in the range whose page is not in memory.
pub record IsFault (c : Controller) (place : ℕ) : Type 0 where
  pub lower : c.shm_start ≤ place
  pub upper : place < c.shm_start + c.shm_size
  pub absent : c.access (page_index c place) ≡ false

-- A fault that finds controller `d` after making room ends with the page filled in.
pub handler_lem :
    (env : EvictEnv) (place : ℕ) (c d : Controller)
    → env.mprotect_succeeds ≡ true
    → c.used_pages ≤ c.max_active_pg_cnt
    → c.shm_start % 4096 ≡ 0
    → IsFault c place
    → d.shm_start ≡ c.shm_start
    → (if c.used_pages == c.max_active_pg_cnt
        then (evict_a_page env c >>= λ r. some r.0)
        else some c)
      ≡ some d
    → handler env place c
      ≡ some (
          filled (page_index c place) (page_read env.wrong_page (d.blk (page_index c place * 8))) d)
unfolding handler notify_page_fault fill_page page_index
handler_lem env place c d m le al f start e =
    let d' = record d { faults = d.faults + 1; used_pages = d.used_pages + 1 } in
    let idx = page_index c place in
    let al' : d.shm_start % 4096 ≡ 0 = ap (λ s. s % 4096) start ∙ al in
    let lower = f.lower in
    let same : idx ≡ (place - d.shm_start) / 4096 = ap (λ s. (place - s) / 4096) (sym start) in
    simp (
      le→leb c.shm_start place lower,
      lt→ltb place (c.shm_start + c.shm_size) f.upper,
      le→leb c.used_pages c.max_active_pg_cnt le,
      e,
      map_page_lem env place idx d' al' (omega arith) same,
      aligned_index_once c.shm_start place al lower,
      m,
    )

-- Within a limit of at least one page the handler serves a fault of a page in the range that is not
-- in memory, from right bookkeeping, if the device accepts the write of the evicted page,
-- `mprotect` succeeds, and the read of the page succeeds and finds what the device accepted last
-- for it: it returns, the page is accessible, bookkeeping and limit hold again, and no page has
-- changed its content, which is the memory's for a page in memory, and what the device accepted
-- last for any other.
pub handler_serves :
    (env : EvictEnv) (place : ℕ) (c : Controller)
    → IsServed env
    → IsPaged c
    → c.used_pages ≤ c.max_active_pg_cnt
    → 0 < c.max_active_pg_cnt
    → IsFault c place
    → (c' : Controller) × (handler env place c ≡ some c')
      × (c'.access (page_index c place) ≡ true)
      × IsPaged c'
      × (c'.used_pages ≤ c'.max_active_pg_cnt)
      × IsKept c c'
unfolding update page_read
handler_serves env place c s p le pos f =
    let room = makes-Room env c s p le pos in
    let idx = page_index c place in
    let absent : room.after.access idx ≡ false = ground (arith, room.shrunk idx, f.absent) in
    let fits = room.fits in
    (
      filled idx (room.after.blk (idx * 8)) room.after,
      handler_lem env place c room.after s.mprotect le p.aligned f room.kept.start room.returns
          ∙ ap (λ w. some (filled idx (page_read w (room.after.blk (idx * 8))) room.after)) s.read,
      ground arith,
      filled-IsPaged idx (room.after.blk (idx * 8)) room.after room.paged absent,
      omega arith,
      IsKept-trans room.kept (filled-IsKept idx room.after absent),
    )
