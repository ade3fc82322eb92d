-- ===== src/CxlFs/BlkDev/Caching.antt =====
-- The calls of the block device in controller.cc: `write_to_ubd`, `read_from_ubd` and the loop of
-- `flush_cache`.
use snapshot_public.Prelude.{
  ℕ, ◌+◌, ◌-◌, ◌%◌, ◌*◌, ◌/◌, ◌≡◌, refl, ◌∙◌, Bool, Option, some, List, [], ◌∷◌, ◌^◌, ◌>>=◌, arith,
}
use snapshot_public.CxlFs.Controller.{Page, Controller, update, written, page_written, write_back}
use snapshot_public.CxlFs.BlkDev.{Buf, Nvme, BlkDev}
use snapshot_public.CxlFs.BlkDev.Requests.{WriteEnv, ReadEnv, read_blocking, write_blocking}
use snapshot_public.CxlFs.BlkDev.Buffers.{IsWritten}
use snapshot_public.CxlFs.BlkDev.Refines.{IsDrive, IsReady}
use snapshot_public.CxlFs.BlkDev.Pages.{Holds, write_page_ok}

module _ {D : Type 0} (nvme : Nvme D) where
  -- `Controller::write_to_ubd`
  unfoldable pub write_to_ubd :
      WriteEnv → Buf → (addr : ℕ) → Controller → BlkDev D → Option (Bool × BlkDev D)
  write_to_ubd env buf addr c dev =
      write_blocking nvme env buf ((addr + 2 ^ 64 - c.shm_start) % 2 ^ 64 / 2 ^ 12 * 8) 8 dev

  -- `Controller::read_from_ubd`
  unfoldable pub read_from_ubd :
      ReadEnv → Buf → (addr : ℕ) → Controller → BlkDev D → Option (Buf × Bool × BlkDev D)
  read_from_ubd env buf addr c dev =
      read_blocking nvme env buf ((addr + 2 ^ 64 - c.shm_start) % 2 ^ 64 / 2 ^ 12 * 8) 8 dev

  -- The loop of `Controller::flush_cache` on the device, with what machine and drive answer for
  -- each page; the results of the writes are ignored.
  unfoldable pub flush_pages : (ℕ → WriteEnv) → (ℕ → Page) → List ℕ → BlkDev D → Option (BlkDev D)
  flush_pages envs shm [] dev = some dev
  flush_pages envs shm (pg ∷ pgs) dev = do
    r ← write_blocking nvme (envs pg) (shm pg) (pg * 8) 8 dev
    flush_pages envs shm pgs r.1

  update_sectors :
      (blk : ℕ → Page) (pg : ℕ) (p : Page) (q i : ℕ)
      → update (λ r. blk (r * 8)) pg p q i ≡ update blk (pg * 8) p (q * 8) i
  unfolding update
  update_sectors blk pg p q i = ground arith

  -- The loop of `flush_cache` on the block device does what its model on one array of sectors does:
  -- from a ready device that holds the pages of the array, with drives that read back what was
  -- written, and machine and drives that serve every write, both end, and the device is ready and
  -- holds the pages of the new array.
  pub flush_pages_refines :
      (envs : ℕ → WriteEnv) (shm : ℕ → Page) (pgs : List ℕ) (dev : BlkDev D) (blk : ℕ → Page)
      → IsDrive nvme
      → IsReady nvme dev
      → ((pg : ℕ) → IsWritten (envs pg))
      → Holds nvme dev (λ pg. blk (pg * 8))
      → (dev' : BlkDev D) × (blk' : ℕ → Page) × (flush_pages envs shm pgs dev ≡ some dev')
        × (write_back (λ _. written) shm pgs blk ≡ some blk')
        × IsReady nvme dev'
        × Holds nvme dev' (λ pg. blk' (pg * 8))
  unfolding flush_pages write_back page_written
  flush_pages_refines envs shm [] dev blk drive w ok h = (dev, blk, refl, refl, w, h)
  flush_pages_refines envs shm (pg ∷ pgs) dev blk drive w ok h =
      let (dev1, done, w1, h1, bufs) =
        write_page_ok nvme (envs pg) (shm pg) pg dev (λ q. blk (q * 8)) drive w (ok pg) h in
      let (dev', blk', run, back, w', h') =
        flush_pages_refines envs shm pgs dev1 (update blk (pg * 8) (shm pg)) drive w1 ok
          (λ q i l. h1 q i l ∙ update_sectors blk pg (shm pg) q i) in
      (dev', blk', rw done run, back, w', h')
