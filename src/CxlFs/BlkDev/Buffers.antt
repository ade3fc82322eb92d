-- ===== src/CxlFs/BlkDev/Buffers.antt =====
-- The namespaces and buffers that a request of blkdev.cc takes.
use snapshot_public.Prelude.{
  ℕ, ◌+◌, ◌%◌, ◌<◌, ◌≡◌, refl, Bool, true, false, Option, none, some, inl, inr, if◌then◌else◌,
  length, get_elem?, arith, Bool-cases, get_elem?-some,
}
use snapshot_public.CxlFs.BlkDev.{BlkDev}
use snapshot_public.CxlFs.BlkDev.Requests.{
  Sequence, WriteEnv, process_completions, wait, free, target_ns, fits_cmb, map_cmb, write_buf,
}

-- There are namespaces, and as many as are counted.
pub record IsCounted {D : Type 0} (dev : BlkDev D) : Type 0 where
  pub counted : dev.namespace_cnt ≡ length dev.namespaces
  pub some_ns : 0 < dev.namespace_cnt

-- The machine has memory for the request, and the drive takes it and completes it without error.
pub record IsWritten (env : WriteEnv) : Type 0 where
  pub zmalloc : env.zmalloc_succeeds ≡ true
  pub accepted : env.write_accepted ≡ true
  pub done : wait env.polls (process_completions env.first_poll 0) ≡ some 1

-- What a request leaves of the device beside the namespaces.
pub record IsIdle {D : Type 0} (dev dev' : BlkDev D) : Type 0 where
  pub cnt : dev'.namespace_cnt ≡ dev.namespace_cnt
  pub read_buf : dev'.read_buf ≡ dev.read_buf
  pub dma_bufs : dev'.dma_bufs ≡ dev.dma_bufs

module _ {D : Type 0} where
  pub target_ns_lem :
      (dev : BlkDev D) (lba : ℕ)
      → 0 < dev.namespace_cnt
      → target_ns dev lba ≡ some (lba % dev.namespace_cnt)
  unfolding target_ns
  target_ns_lem dev lba h = ground arith

  pub namespace_at :
      (dev : BlkDev D) (lba : ℕ)
      → IsCounted dev
      → (d : D) × (get_elem? dev.namespaces (lba % dev.namespace_cnt) ≡ some d)
  namespace_at dev lba w =
      get_elem?-some dev.namespaces (lba % dev.namespace_cnt) (omega (arith, w.counted, w.some_ns))

  -- The device that holds the buffer of a write, which may be the controller's.
  pub record IsBuffered (dev : BlkDev D) (in_cmb : Bool) (dev' : BlkDev D) : Type 0 where
    pub cnt : dev'.namespace_cnt ≡ dev.namespace_cnt
    pub rbuf : dev'.read_buf ≡ dev.read_buf
    pub bufs : dev'.dma_bufs ≡ (if in_cmb then 0 else 1) + dev.dma_bufs

  map_cmb-namespaces : (o : Option ℕ) (dev : BlkDev D) → (map_cmb o dev).namespaces ≡ dev.namespaces
  unfolding map_cmb
  map_cmb-namespaces none dev = refl
  map_cmb-namespaces (some sz) dev = refl

  map_cmb-IsBuffered : (o : Option ℕ) (dev : BlkDev D) → IsBuffered dev true (map_cmb o dev)
  unfolding map_cmb
  map_cmb-IsBuffered none dev = record { cnt = refl; rbuf = refl; bufs = omega arith }
  map_cmb-IsBuffered (some sz) dev = record { cnt = refl; rbuf = refl; bufs = omega arith }

  pub write_buf-IsBuffered :
      (env : WriteEnv) (n : ℕ) (dev : BlkDev D)
      → env.zmalloc_succeeds ≡ true
      → (in_cmb : Bool) × (dev' : BlkDev D) × (write_buf env n dev ≡ (some in_cmb, dev'))
        × (dev'.namespaces ≡ dev.namespaces)
        × IsBuffered dev in_cmb dev'
  unfolding write_buf
  write_buf-IsBuffered env n dev h =
      let m = map_cmb-IsBuffered env.map_cmb dev in
      let mapped = map_cmb env.map_cmb dev in
      let same = map_cmb-namespaces env.map_cmb dev in
      elim (Bool-cases (fits_cmb env.map_cmb n)) [
        | inl e ↦ (true, mapped, rw e refl, same, m)
        | inr e ↦ (
          false,
          record mapped { dma_bufs = mapped.dma_bufs + 1 },
          rw (e, h) refl,
          same,
          record { cnt = m.cnt; rbuf = m.rbuf; bufs = omega (arith, m.bufs) },
        )
      ]

  -- Freeing the request gives its buffer back.
  pub free-IsBuffered :
      (s : Sequence) (dev dev' : BlkDev D)
      → IsBuffered dev s.using_cmb_io dev'
      → s.is_write ≡ true
      → ((free s dev').namespaces ≡ dev'.namespaces) × IsIdle dev (free s dev')
  unfolding free
  free-IsBuffered s dev dev' b w = (
    ground arith,
    record {
      cnt = ground (arith, b.cnt);
      read_buf = ground (arith, b.rbuf);
      dma_bufs = ground (arith, b.bufs);
    },
  )
