-- ===== src/CxlFs/BlkDev/Refines.antt =====
-- The requests for pages in blkdev.cc against one array of pages.
use snapshot_public.Prelude.{
  ℕ, ◌+◌, ◌*◌, ◌%◌, ◌≤◌, ◌<◌, ◌≡◌, ◌≢◌, ap, subst, false, Option, none, some, ◌⊎◌, inl, inr, List,
  ◌==◌, get_elem?, set, arith, Bool-cases, get_elem?-set_self, get_elem?-set_ne, All,
}
use snapshot_public.CxlFs.Controller.{Page, update}
use snapshot_public.CxlFs.BlkDev.{Buf, Nvme, BlkDev}
use snapshot_public.CxlFs.BlkDev.Buffers.{IsCounted}

apart : (pg pg' : ℕ) → pg' ≢ pg → (pg * 8 + 8 ≤ pg' * 8) ⊎ (pg' * 8 + 8 ≤ pg * 8)
apart pg pg' ne = ground arith

module _ {D : Type 0} (nvme : Nvme D) where
  -- A drive reads back what was written, and elsewhere what it had.
  pub record IsDrive : Type 0 where
    pub read_back :
        (d : D) (lba n : ℕ) (buf : Buf) (i : ℕ)
        → i < n * 512
        → nvme.read (nvme.write d lba n buf) lba n i ≡ buf i
    pub read_other :
        (d : D) (lba n : ℕ) (buf : Buf) (lba' n' i : ℕ)
        → (lba + n ≤ lba') ⊎ (lba' + n' ≤ lba)
        → i < n' * 512
        → nvme.read (nvme.write d lba n buf) lba' n' i ≡ nvme.read d lba' n' i
    pub same_kind :
        (d : D) (lba n : ℕ) (buf : Buf) → nvme.is_zns (nvme.write d lba n buf) ≡ nvme.is_zns d

  abbrev pub IsPlain : D → Type 0
  IsPlain d = nvme.is_zns d ≡ false

  -- The namespaces are counted, none is zoned, and a read buffer, once there, has room for a page.
  pub record IsReady (dev : BlkDev D) : Type 0 where
    pub count : IsCounted dev
    pub plain : All IsPlain dev.namespaces
    pub room : (b : ℕ × Buf) → dev.read_buf ≡ some b → 4096 ≤ b.0

  -- A page of a namespace that may be missing.
  unfoldable pub page_in : Option D → ℕ → Page
  page_in none pg i = 0
  page_in (some d) pg i = nvme.read d (pg * 8) 8 i

  -- The page of the device that begins at sector `pg * 8`.
  unfoldable pub page_of : BlkDev D → ℕ → Page
  page_of dev pg = page_in (get_elem? dev.namespaces (pg * 8 % dev.namespace_cnt)) pg

  page_in-set_self :
      (nss : List D) (k pg i : ℕ) (d : D) (buf : Buf)
      → IsDrive
      → i < 4096
      → get_elem? nss k ≡ some d
      → page_in (get_elem? (set nss k (nvme.write d (pg * 8) 8 buf)) k) pg i ≡ buf i
  unfolding page_in
  page_in-set_self nss k pg i d buf drive h g =
      rw (get_elem?-set_self nss k d (nvme.write d (pg * 8) 8 buf) g)
        (drive.read_back d (pg * 8) 8 buf i h)

  page_in-set_other :
      (nss : List D) (k k' pg pg' i : ℕ) (d : D) (buf : Buf)
      → IsDrive
      → i < 4096
      → get_elem? nss k ≡ some d
      → pg' ≢ pg
      → page_in (get_elem? (set nss k (nvme.write d (pg * 8) 8 buf)) k') pg' i
        ≡ page_in (get_elem? nss k') pg' i
  unfolding page_in
  page_in-set_other nss k k' pg pg' i d buf drive h g ne = elim (Bool-cases (k == k')) [
    | inl e ↦
        let same : k ≡ k' = ground arith in
        subst
          (λ j.
            page_in (get_elem? (set nss k (nvme.write d (pg * 8) 8 buf)) j) pg' i
            ≡ page_in (get_elem? nss j) pg' i)
          same
          (rw (get_elem?-set_self nss k d (nvme.write d (pg * 8) 8 buf) g, g)
            (drive.read_other d (pg * 8) 8 buf (pg' * 8) 8 i (apart pg pg' ne) h))
    | inr n ↦
        let differ : k ≢ k' = ground arith in
        ap (λ o. page_in o pg' i) (get_elem?-set_ne nss k k' (nvme.write d (pg * 8) 8 buf) differ)
  ]

  -- A write of a page to the device changes that page alone.
  pub page_of-put :
      (dev dev' : BlkDev D) (pg pg' i : ℕ) (d : D) (buf : Buf)
      → IsDrive
      → i < 4096
      → get_elem? dev.namespaces (pg * 8 % dev.namespace_cnt) ≡ some d
      → dev'.namespaces
        ≡ set dev.namespaces (pg * 8 % dev.namespace_cnt) (nvme.write d (pg * 8) 8 buf)
      → dev'.namespace_cnt ≡ dev.namespace_cnt
      → page_of dev' pg' i ≡ update (page_of dev) pg buf pg' i
  unfolding update page_of
  page_of-put dev dev' pg pg' i d buf drive h g eq cnt =
      rw (eq, cnt)
        (elim (Bool-cases (pg' == pg)) [
          | inl e ↦
              let same : pg ≡ pg' = ground arith in
              rw e (
                subst
                  (λ p.
                    page_in
                      (get_elem?
                        (set dev.namespaces (pg * 8 % dev.namespace_cnt)
                          (nvme.write d (pg * 8) 8 buf))
                        (p * 8 % dev.namespace_cnt))
                      p i
                    ≡ buf i)
                  same
                  (page_in-set_self dev.namespaces (pg * 8 % dev.namespace_cnt) pg i d buf drive h
                    g))
          | inr n ↦
              let ne : pg' ≢ pg = ground arith in
              rw n (
                page_in-set_other dev.namespaces (pg * 8 % dev.namespace_cnt)
                  (pg' * 8 % dev.namespace_cnt) pg pg' i d buf drive h g ne)
        ])
