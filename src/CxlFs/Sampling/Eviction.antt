-- ===== src/CxlFs/Sampling/Eviction.antt =====
-- `Controller::evict_a_page` with the distribution that `MemBWDist::get_dist` samples for it.
use snapshot_public.Prelude.{
  ℕ, zero, suc, ◌+◌, ◌^◌, ◌/◌, ◌≡◌, ◌≢◌, refl, ap, sym, subst, ◌∙◌, true, false, Option, none, some,
  ◌↔◌, ◌⊎◌, inl, inr, List, [], ◌∷◌, if◌then◌else◌, take, Any, arith, Bool-cases, Option-cases,
}
use snapshot_public.CxlFs.Controller.{
  Controller, EvictEnv, contains, erase, refresh_dist, find_target, choose_target, evict_target,
  evict_a_page,
}
use snapshot_public.CxlFs.Controller.Accessors.{get_shm, get_shm_end}
use snapshot_public.CxlFs.Controller.Pages.{choose_target-contains}
use snapshot_public.CxlFs.Controller.Paging.{evicted}
use snapshot_public.CxlFs.Sampling.{PerfRecord, SampleBuf, get_dist}
use snapshot_public.CxlFs.Sampling.Loops.{Holds}
use snapshot_public.CxlFs.Sampling.Dist.{Hits, get_dist_samples, get_dist-IsSample}

find_target_spares :
    (dist : List ℕ) (cnt : ℕ) (target : Option ℕ) (pgs : List ℕ) (x : ℕ)
    → find_target dist cnt target pgs ≡ some x
    → (target ≡ some x) ⊎ (contains dist x ≡ false)
unfolding find_target
find_target_spares dist cnt target [] x h = inl h
find_target_spares dist cnt target (pg ∷ pgs) x h =
    ground (
      arith,
      find_target_spares dist (cnt + 1) (if contains dist pg then target else some pg) pgs x,
    )

find_target_keeps :
    (dist : List ℕ) (cnt : ℕ) (target : Option ℕ) (pgs : List ℕ)
    → target ≢ none
    → find_target dist cnt target pgs ≢ none
unfolding find_target
find_target_keeps dist cnt target [] h = h
find_target_keeps dist cnt target (pg ∷ pgs) h = ground (
  arith,
  find_target_keeps dist (cnt + 1) target pgs,
  find_target_keeps dist (cnt + 1) (some pg) pgs,
)

-- A page outside the distribution among those that the loop still looks at is found.
find_target_finds :
    (dist : List ℕ) (n cnt : ℕ) (target : Option ℕ) (pgs : List ℕ)
    → n + cnt ≡ 258
    → Any (λ pg. contains dist pg ≡ false) (take n pgs)
    → find_target dist cnt target pgs ≢ none
unfolding find_target
find_target_finds dist zero cnt target pgs room a = absurd a
find_target_finds dist (suc n) cnt target [] room a = absurd a
find_target_finds dist (suc zero) cnt target (pg ∷ pgs) room (inl a) = ground arith
find_target_finds dist (suc zero) cnt target (pg ∷ pgs) room (inr a) = absurd a
find_target_finds dist (suc (suc n)) cnt target (pg ∷ pgs) room (inl a) =
    ground (arith, find_target_keeps dist (cnt + 1) (some pg) pgs)
find_target_finds dist (suc (suc n)) cnt target (pg ∷ pgs) room (inr a) = ground (
  arith,
  find_target_finds dist (suc n) (cnt + 1) target pgs (omega arith) a,
  find_target_finds dist (suc n) (cnt + 1) (some pg) pgs (omega arith) a,
)

choose_target_spares :
    (env : EvictEnv) (c : Controller)
    → Any (λ pg. contains c.dist pg ≡ false) (take 258 c.mapped_pages)
    → (x : ℕ) × (choose_target env c ≡ some x) × (contains c.dist x ≡ false)
unfolding choose_target
choose_target_spares env c a = elim (Option-cases (find_target c.dist 0 none c.mapped_pages)) [
  | inl n ↦ absurd (find_target_finds c.dist 258 0 none c.mapped_pages refl a n)
  | inr f ↦
      (f.0, ground arith, ground (arith, find_target_spares c.dist 0 none c.mapped_pages f.0 f.1))
]

-- The sampling that `evict_a_page` calls for: the distribution of the range comes from this ring.
abbrev pub Samples : EvictEnv → Controller → SampleBuf → Type 0
Samples env c buf =
    (buf' : SampleBuf) × (get_dist 12 513 (get_shm c) (get_shm_end c) buf
      ≡ some (env.sampled, buf'))

-- None of the samples that count has its address in this page of the range.
abbrev pub IsCold : Controller → List PerfRecord → ℕ → Type 0
IsCold c rs pg = ¬ Any (Hits 12 (get_shm c / 2 ^ 12) (get_shm_end c / 2 ^ 12) pg) (take 513 rs)

-- The distribution is the one of `get_dist_samples`.
sampled-contains :
    (env : EvictEnv) (c : Controller) (buf : SampleBuf) (rs : List PerfRecord) (pg : ℕ)
    → Holds buf buf.data_tail rs
    → Samples env c buf
    → (contains env.sampled pg ≡ true)
      ↔ Any (Hits 12 (get_shm c / 2 ^ 12) (get_shm_end c / 2 ^ 12) pg) (take 513 rs)
sampled-contains env c buf rs pg h (buf', s) =
    let all = get_dist-IsSample 12 513 (get_shm c) (get_shm_end c) buf rs (env.sampled, buf') h s in
    let d = get_dist_samples 12 513 (get_shm c) (get_shm_end c) buf rs h all (omega arith) in
    let same : env.sampled ≡ d.0 = cc (s, d.1) in
    subst
      (λ dist.
        (contains dist pg ≡ true)
        ↔ Any (Hits 12 (get_shm c / 2 ^ 12) (get_shm_end c / 2 ^ 12) pg) (take 513 rs))
      (sym same) (d.2 pg)

IsCold-contains :
    (env : EvictEnv) (c : Controller) (buf : SampleBuf) (rs : List PerfRecord) (pg : ℕ)
    → Holds buf buf.data_tail rs
    → Samples env c buf
    → (contains env.sampled pg ≡ false) ↔ IsCold c rs pg
IsCold-contains env c buf rs pg h s =
    let (to, from) = sampled-contains env c buf rs pg h s in
    (
      λ e a. cc (e, from a),
      λ n. elim (Bool-cases (contains env.sampled pg)) [ inl e ↦ absurd (n (to e)) | inr e ↦ e ],
    )

cold_pages :
    (env : EvictEnv) (c : Controller) (buf : SampleBuf) (rs : List PerfRecord) (pgs : List ℕ)
    → Holds buf buf.data_tail rs
    → Samples env c buf
    → Any (IsCold c rs) pgs
    → Any (λ pg. contains env.sampled pg ≡ false) pgs
cold_pages env c buf rs [] h s a = absurd a
cold_pages env c buf rs (pg ∷ pgs) h s (inl a) = inl ((IsCold-contains env c buf rs pg h s).1 a)
cold_pages env c buf rs (pg ∷ pgs) h s (inr a) = inr (cold_pages env c buf rs pgs h s a)

refresh_dist-dist :
    (env : EvictEnv) (c : Controller)
    → c.dist_age ≡ c.max_dist_age
    → ((refresh_dist env c).dist ≡ env.sampled)
      × ((refresh_dist env c).mapped_pages ≡ c.mapped_pages)
unfolding refresh_dist
refresh_dist-dist env c e = ground arith

evict_target-erase :
    (env : EvictEnv) (x : ℕ) (c : Controller)
    → env.write_accepted ≡ true
    → env.mprotect_succeeds ≡ true
    → (c' : Controller) × (evict_target env x c ≡ some (c', true))
      × (c'.mapped_pages ≡ erase c.mapped_pages x)
unfolding evict_target
evict_target-erase env x c w m = (evicted env x c, ground arith, refl)

-- A fresh sampling spares the pages in use: where the distribution is due to be sampled, `get_dist`
-- returns one for the range from a ring of records, one of the first 258 mapped pages has no
-- sample among the first 513 records, the device accepts the write and `mprotect` succeeds,
-- `evict_a_page` succeeds, and the page that it takes out of the mapped pages was mapped and has
-- no such sample either.
pub evict_a_page_spares :
    (env : EvictEnv) (c : Controller) (buf : SampleBuf) (rs : List PerfRecord)
    → c.dist_age ≡ c.max_dist_age
    → Holds buf buf.data_tail rs
    → Samples env c buf
    → Any (IsCold c rs) (take 258 c.mapped_pages)
    → env.write_accepted ≡ true
    → env.mprotect_succeeds ≡ true
    → (c' : Controller) × (x : ℕ) × (evict_a_page env c ≡ some (c', true))
      × (c'.mapped_pages ≡ erase c.mapped_pages x)
      × (contains c.mapped_pages x ≡ true)
      × IsCold c rs x
unfolding evict_a_page
evict_a_page_spares env c buf rs due h s a w m =
    let (dist, pgs) = refresh_dist-dist env c due in
    let cold = cold_pages env c buf rs (take 258 c.mapped_pages) h s a in
    let (x, chosen, free) = choose_target_spares env (refresh_dist env c) (rw (dist, pgs) cold) in
    let (c', done, erased) = evict_target-erase env x (refresh_dist env c) w m in
    (
      c',
      x,
      rw (chosen, done) refl,
      erased ∙ ap (λ ys. erase ys x) pgs,
      subst (λ ys. contains ys x ≡ true) pgs
          (choose_target-contains env (refresh_dist env c) x chosen),
      (IsCold-contains env c buf rs x h s).0 (subst (λ d. contains d x ≡ false) dist free),
    )
