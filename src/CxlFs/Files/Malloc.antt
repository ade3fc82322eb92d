-- ===== src/CxlFs/Files/Malloc.antt =====
-- `malloc` of libcxlfs: an allocator that only moves up.
use snapshot_public.Prelude.{
  ℕ, ◌+◌, ◌≤◌, ◌<◌, ◌≡◌, ◌≢◌, refl, sym, ap, ◌∙◌, inl, inr, false, none, some, ltb, Option-cases,
  arith,
}
use snapshot_public.StoreInst.Memory.{word, add64}
use snapshot_public.CxlFs.Controller.{Page, Controller, InitEnv, EvictEnv, handler}
use snapshot_public.CxlFs.Files.{Pool, get_ctrlr, malloc}
use snapshot_public.CxlFs.Files.Regions.{Allocator, some-inj}

none-some {ℓ} : {A : Type ℓ} {a : A} → none ≢ some a
none-some h = cc

-- The address behind the last allocated byte.
unfoldable pub pool_top : Pool → ℕ
pool_top pool = elim pool.ctrlr [ none ↦ 0 | some c ↦ c.shm_start + pool.bump_off ]

-- The addresses behind the allocated ones do not wrap.
abbrev pub PoolFits : InitEnv → (ℕ → Page) → ℕ → Pool → Type 0
PoolFits env blk bytes pool =
    (c : Controller) → get_ctrlr env blk pool ≡ some c → c.shm_start + pool.bump_off + bytes < word

pool_top-le :
    (env : InitEnv) (blk : ℕ → Page) (pool : Pool) (c : Controller)
    → get_ctrlr env blk pool ≡ some c
    → pool_top pool ≤ c.shm_start + pool.bump_off
unfolding get_ctrlr pool_top
pool_top-le env blk pool c e = elim (Option-cases pool.ctrlr) [
  | inl absent ↦ rw (pool_top, absent) (omega arith)
  | inr (c', there) ↦
      let same : c' ≡ c = some-inj (rw there at e) in rw (pool_top, there, same) (omega arith)
]

malloc_lem :
    (env : InitEnv) (blk : ℕ → Page) (bytes : ℕ) (pool : Pool) (c : Controller)
    → get_ctrlr env blk pool ≡ some c
    → malloc env blk bytes pool
      ≡ some (
        add64 c.shm_start pool.bump_off,
        record { ctrlr = some c; bump_off = add64 pool.bump_off bytes },
      )
unfolding malloc
malloc_lem env blk bytes pool c e = simp e

malloc-none :
    (env : InitEnv) (blk : ℕ → Page) (bytes : ℕ) (pool : Pool)
    → get_ctrlr env blk pool ≡ none
    → malloc env blk bytes pool ≡ none
unfolding malloc
malloc-none env blk bytes pool e = simp e

pool_top_bumped :
    (c : Controller) (bump bytes : ℕ)
    → c.shm_start + bump + bytes < word
    → pool_top (record { ctrlr = some c; bump_off = add64 bump bytes }) ≡ c.shm_start + bump + bytes
unfolding pool_top add64
pool_top_bumped c bump bytes h = omega arith

add64-small : (a b : ℕ) → a + b < word → add64 a b ≡ a + b
unfolding add64
add64-small a b h = omega arith

-- The regions of `malloc` are fresh as long as addresses do not wrap: a region lies behind all
-- that was allocated before and below all that comes after.
pub malloc_fresh :
    (env : InitEnv) (blk : ℕ → Page) (bytes : ℕ) (pool pool' : Pool) (region : ℕ)
    → PoolFits env blk bytes pool
    → malloc env blk bytes pool ≡ some (region, pool')
    → (pool_top pool ≤ region) × (region + bytes ≤ pool_top pool') × (pool_top pool' < word)
malloc_fresh env blk bytes pool pool' region fits h = elim (Option-cases (get_ctrlr env blk pool)) [
  | inl absent ↦ absurd (none-some (sym (malloc-none env blk bytes pool absent) ∙ h))
  | inr (c, there) ↦
      let e = some-inj (sym (malloc_lem env blk bytes pool c there) ∙ h) in
      let e0 : add64 c.shm_start pool.bump_off ≡ region = ap (λ r. r.0) e in
      let e1 : record { ctrlr = some c; bump_off = add64 pool.bump_off bytes } ≡ pool' =
        ap (λ r. r.1) e in
      let room = fits c there in
      let low = pool_top-le env blk pool c there in
      let small = add64-small c.shm_start pool.bump_off (omega arith) in
      let high = pool_top_bumped c pool.bump_off bytes room in
      let same : pool_top (record { ctrlr = some c; bump_off = add64 pool.bump_off bytes })
          ≡ pool_top pool' =
        ap pool_top e1 in
      (omega arith, omega arith, omega arith)
]

-- `malloc` as an allocator of regions.
abbrev pub malloc_allocator : InitEnv → (ℕ → Page) → Allocator Pool
malloc_allocator env blk = record {
  allocate = malloc env blk;
  top = pool_top;
  Fits = PoolFits env blk;
  fresh = malloc_fresh env blk;
}

-- `malloc` knows no end of the shared memory. Once all of it is allocated (and nothing wraps) the
-- next call still returns a region, whose first byte is outside the range of the fault handler, so
-- that an access to it ends the program.
pub malloc_overruns :
    (env : InitEnv) (blk : ℕ → Page) (bytes : ℕ) (c : Controller) (bump_off : ℕ)
    → c.shm_size ≤ bump_off
    → c.shm_start + bump_off < word
    → (region : ℕ) × (pool' : Pool) × (malloc env blk bytes
          (record { ctrlr = some c; bump_off = bump_off })
        ≡ some (region, pool'))
      × (pool'.ctrlr ≡ some c)
      × ((evict : EvictEnv) → handler evict region c ≡ none)
unfolding handler get_ctrlr
malloc_overruns env blk bytes c bump_off over room =
    let small = add64-small c.shm_start bump_off room in
    let out : ltb (c.shm_start + bump_off) (c.shm_start + c.shm_size) ≡ false = ground arith in
    (
      c.shm_start + bump_off,
      record { ctrlr = some c; bump_off = add64 bump_off bytes },
      malloc_lem env blk bytes (record { ctrlr = some c; bump_off = bump_off }) c refl
          ∙ ap (λ r. some (r, record { ctrlr = some c; bump_off = add64 bump_off bytes })) small,
      refl,
      λ evict. ground arith,
    )
