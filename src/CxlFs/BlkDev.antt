-- ===== src/CxlFs/BlkDev.antt =====
-- blkdev.cc: the block device, made of the namespaces of all NVMe controllers. A request goes to
-- the namespace that its first sector has as remainder, and keeps its sector number there. SPDK
-- and the drives behind it are parameters: `Nvme` has what a namespace does to its sectors, the
-- environments what the calls answer.
pub mod Requests
pub mod Buffers
pub mod Writes
pub mod Refines
pub mod Pages
pub mod Failures
pub mod Caching
use snapshot_public.Prelude.{
  ℕ, zero, suc, ◌+◌, ◌-◌, ◌*◌, ◌/◌, ◌%◌, ◌^◌, Bool, true, false, not, ◌&&◌, ◌||◌, Option, none,
  some, List, [], ◌∷◌, ◌++◌, ltb, ◌==◌, if◌then◌else◌, length, get_elem?, set, ◌>>=◌,
}

-- The bytes of a buffer by their offset.
abbrev pub Buf : Type 0
Buf = ℕ → ℕ

-- What a namespace with state `D` does: whether it is zoned, the bytes from a sector on for a
-- number of sectors, and the state after a write of such bytes, after one that completes with an error,
-- which may leave anything, or after the reset of a zone.
pub record Nvme (D : Type 0) : Type 0 where
  pub is_zns : D → Bool
  pub read : D → (start_lba lba_count : ℕ) → Buf
  pub write : D → (start_lba lba_count : ℕ) → Buf → D
  pub failed_write : D → (start_lba lba_count : ℕ) → Buf → D
  pub reset_zone : D → ℕ → D

-- A `UserBlkDev` with the list of namespaces: their states, the count kept beside them, the read
-- buffer with its size in bytes, and the number of DMA buffers of writes and of mapped controller
-- buffers.
pub record BlkDev (D : Type 0) : Type 0 where
  pub has_controllers : Bool
  pub namespaces : List D
  pub namespace_cnt : ℕ
  pub read_buf : Option (ℕ × Buf)
  pub dma_bufs : ℕ
  pub mapped_cmbs : ℕ

-- `UserBlkDev::register_ns`
unfoldable pub register_ns {ℓ} : {A : Type ℓ} → Bool → A → List A → List A
register_ns is_active ns namespaces = if is_active then namespaces ++ ns ∷ [] else namespaces

module _ {D : Type 0} where
  -- The loop of `UserBlkDev::attach_cb` over what `spdk_nvme_ctrlr_get_ns` answers for the ids of
  -- the controller: no namespace, or one, and whether it is active.
  unfoldable pub attach_namespaces : List (Option (Bool × D)) → BlkDev D → BlkDev D
  attach_namespaces [] dev = dev
  attach_namespaces (none ∷ nss) dev = attach_namespaces nss dev
  attach_namespaces (some (is_active, ns) ∷ nss) dev = attach_namespaces nss (record dev {
    namespaces = register_ns is_active ns dev.namespaces;
    namespace_cnt = dev.namespace_cnt + 1;
  })

  -- `UserBlkDev::attach_cb`
  unfoldable pub attach_cb : List (Option (Bool × D)) → BlkDev D → BlkDev D
  attach_cb nss dev = attach_namespaces nss (record dev { has_controllers = true })

  -- `UserBlkDev::cleanup`
  unfoldable pub cleanup : BlkDev D → BlkDev D
  cleanup dev = record dev { has_controllers = false; namespaces = [] }

  -- The calls of `attach_cb` in `spdk_nvme_probe`.
  unfoldable pub probe : List (List (Option (Bool × D))) → BlkDev D → BlkDev D
  probe [] dev = dev
  probe (nss ∷ ctrlrs) dev = probe ctrlrs (attach_cb nss dev)

-- The results of `UserBlkDev::init`: 0, 1 and -1.
pub data InitResult : Type 0 where
  ready failed no_qpair : InitResult

-- What SPDK answers in `init`: whether the environment starts, the controllers that the probe
-- finds and whether it succeeds, and whether every queue pair is allocated.
pub record ProbeEnv (D : Type 0) : Type 0 where
  pub env_starts : Bool
  pub ctrlrs : List (List (Option (Bool × D)))
  pub probe_succeeds : Bool
  pub qpairs_allocated : Bool

module _ {D : Type 0} where
  -- `UserBlkDev::init`
  unfoldable pub init : ProbeEnv D → BlkDev D → BlkDev D × InitResult
  init env dev =
      let probed = probe env.ctrlrs dev in
      if not env.env_starts
      then (dev, failed)
      else if not env.probe_succeeds || not probed.has_controllers
      then (cleanup probed, failed)
      else if not env.qpairs_allocated && not (length probed.namespaces == 0)
      then (probed, no_qpair)
      else (probed, ready)
