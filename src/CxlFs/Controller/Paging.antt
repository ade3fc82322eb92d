-- ===== src/CxlFs/Controller/Paging.antt =====
-- `evict_a_page` on a controller whose bookkeeping is right: what an access sees of every page,
-- wherever it is.
use snapshot_public.Prelude.{
  ℕ, ◌+◌, ◌-◌, ◌*◌, ◌%◌, ◌<◌, ◌≡◌, refl, sym, ap, ◌∙◌, Bool, true, false, none, some, List, [], ◌∷◌,
  ◌++◌, ◌==◌, if◌then◌else◌, length, arith,
}
use snapshot_public.CxlFs.Controller.{
  Page, Controller, EvictEnv, contains, erase, update, refresh_dist, sweep, evict_target,
  evict_a_page,
}
use snapshot_public.CxlFs.Controller.Pages.{
  IsNodup, contains-erase, length-erase, IsNodup-erase, choose_target-contains, choose_target-some,
}

-- The content of a page: the memory's while it is accessible, what the device took last otherwise.
abbrev pub view : Controller → ℕ → Page
view c pg = if c.access pg then c.shm pg else c.blk (pg * 8)

-- The bookkeeping agrees with what is accessible.
pub record IsPaged (c : Controller) : Type 0 where
  pub nodup : IsNodup c.mapped_pages
  pub used : c.used_pages ≡ length c.mapped_pages
  pub mapped : (pg : ℕ) → c.access pg ≡ contains c.mapped_pages pg
  pub aligned : c.shm_start % 4096 ≡ 0

-- Nothing that an access sees is changed.
pub record IsKept (c c' : Controller) : Type 0 where
  pub content : (pg : ℕ) → view c' pg ≡ view c pg
  pub start : c'.shm_start ≡ c.shm_start
  pub size : c'.shm_size ≡ c.shm_size
  pub limit : c'.max_active_pg_cnt ≡ c.max_active_pg_cnt

-- What the device and the machine promise for a fault: the write of the evicted page is accepted, and
-- the page read is as the device took it last.
pub record IsServed (env : EvictEnv) : Type 0 where
  pub write : env.write_accepted ≡ true
  pub mprotect : env.mprotect_succeeds ≡ true
  pub read : env.wrong_page ≡ none

-- The controller after `evict_target`.
abbrev pub evicted : EvictEnv → ℕ → Controller → Controller
evicted env target c = record c {
  blk = update c.blk (target * 8) (c.shm target);
  ubd_wr_cq = sweep env.is_completed (c.ubd_wr_cq ++ (target * 8) ∷ []);
  access = update c.access target false;
  mapped_pages = erase c.mapped_pages target;
  used_pages = c.used_pages - 1;
}

evicted-content :
    (access : ℕ → Bool) (shm blk : ℕ → Page) (target pg : ℕ)
    → access target ≡ true
    → (if update access target false pg
        then shm pg
        else update blk (target * 8) (shm target) (pg * 8))
      ≡ (if access pg then shm pg else blk (pg * 8))
unfolding update
evicted-content access shm blk target pg h = ground arith

-- Evicting a mapped page takes it out of memory and nothing else.
evict_target_ok :
    (env : EvictEnv) (target : ℕ) (c : Controller)
    → IsServed env
    → evict_target env target c ≡ some (evicted env target c, true)
unfolding evict_target
evict_target_ok env target c s = simp (s.write, s.mprotect)

evicted-IsPaged :
    (env : EvictEnv) (target : ℕ) (c : Controller)
    → IsPaged c
    → contains c.mapped_pages target ≡ true
    → IsPaged (evicted env target c)
unfolding update
evicted-IsPaged env target c p h = record {
  nodup = IsNodup-erase c.mapped_pages target p.nodup;
  used = (let e = length-erase c.mapped_pages target p.nodup h in let u = p.used in omega arith);
  mapped = λ pg. ground (arith, contains-erase c.mapped_pages target pg, p.mapped pg);
  aligned = p.aligned;
}

evicted-IsKept :
    (env : EvictEnv) (target : ℕ) (c : Controller)
    → IsPaged c
    → contains c.mapped_pages target ≡ true
    → IsKept c (evicted env target c)
evicted-IsKept env target c p h = record {
  content = λ pg. evicted-content c.access c.shm c.blk target pg (p.mapped target ∙ h);
  start = refl;
  size = refl;
  limit = refl;
}

on_both : {A : Type 0} (P : A → Type 0) (b : Bool) {x y : A} → P x → P y → P (if b then x else y)
on_both P true p q = p
on_both P false p q = q

-- The update of the distribution touches nothing else.
refresh_dist_lem :
    (env : EvictEnv) (c : Controller) (P : Controller → Type 0)
    → ((dist : List ℕ) (age max_age : ℕ)
        → P (record c { dist = dist; dist_age = age; max_dist_age = max_age }))
    → P (refresh_dist env c)
unfolding refresh_dist
refresh_dist_lem env c P p = on_both P (c.dist_age == c.max_dist_age) (p _ _ _) (p _ _ _)

-- What an eviction achieves: one page fewer, and every page as before.
pub record Evicts (env : EvictEnv) (c : Controller) : Type 0 where
  pub after : Controller
  pub returns : evict_a_page env c ≡ some (after, true)
  pub paged : IsPaged after
  pub kept : IsKept c after
  pub freed : after.used_pages + 1 ≡ c.used_pages
  pub shrunk : (pg : ℕ) → after.access pg ≡ true → c.access pg ≡ true

pub record Refreshed (c r : Controller) : Type 0 where
  pub paged : IsPaged r
  pub kept : IsKept c r
  pub same_used : r.used_pages ≡ c.used_pages
  pub same_access : r.access ≡ c.access

pub refreshed : (env : EvictEnv) (c : Controller) → IsPaged c → Refreshed c (refresh_dist env c)
refreshed env c p = refresh_dist_lem env c (Refreshed c) λ dist age max_age. record {
  paged = record { nodup = p.nodup; used = p.used; mapped = p.mapped; aligned = p.aligned };
  kept = record { content = λ _. refl; start = refl; size = refl; limit = refl };
  same_used = refl;
  same_access = refl;
}

update-false : (access : ℕ → Bool) (t pg : ℕ) → update access t false pg ≡ true → access pg ≡ true
unfolding update
update-false access t pg h = ground arith

pub IsKept-trans : {a b c : Controller} → IsKept a b → IsKept b c → IsKept a c
IsKept-trans p q = record {
  content = λ pg. q.content pg ∙ p.content pg;
  start = q.start ∙ p.start;
  size = q.size ∙ p.size;
  limit = q.limit ∙ p.limit;
}

-- With the device accepting writes, an eviction of a controller that has a page in memory returns
-- 0, frees exactly one page, makes none accessible and changes no page as an access sees it.
pub evict_a_page_frees :
    (env : EvictEnv) (c : Controller) → IsServed env → IsPaged c → 0 < c.used_pages → Evicts env c
unfolding evict_a_page
evict_a_page_frees env c s p h =
    let r = refresh_dist env c in
    let q = refreshed env c p in
    let u = q.paged.used in
    let same = q.same_used in
    let (t, e) = choose_target-some env r (omega arith) in
    let m = choose_target-contains env r t e in
    let l = length-erase r.mapped_pages t q.paged.nodup m in
    record {
      after = evicted env t r;
      returns = simp (e, evict_target_ok env t r s);
      paged = evicted-IsPaged env t r q.paged m;
      kept = IsKept-trans q.kept (evicted-IsKept env t r q.paged m);
      freed = omega arith;
      shrunk = λ pg a. (ap (λ f. f pg) (sym q.same_access)) ∙ update-false r.access t pg a;
    }
