-- ===== src/CxlFs/BlkDev/Failures.antt =====
-- Failing calls in blkdev.cc: `read_blocking` after a command that is refused, and requests after
-- an `init` that fails.
use snapshot_public.Prelude.{
  ℕ, ◌*◌, ◌<◌, ◌⊎◌, Option-cases, ◌≡◌, refl, Bool, true, false, Option, none, some, inl, inr, List,
  [], ◌∷◌, ltb, ◌==◌, length, arith, Bool-cases, length-append, All,
}
use snapshot_public.CxlFs.BlkDev.{
  Buf, Nvme, BlkDev, ProbeEnv, ready, failed, register_ns, attach_namespaces, attach_cb, cleanup,
  probe, init,
}
use snapshot_public.CxlFs.BlkDev.Requests.{
  WriteEnv, ReadEnv, target_ns, get_read_buf, issue_read, read_into, read_blocking, write,
  write_blocking,
}
use snapshot_public.CxlFs.BlkDev.Buffers.{namespace_at, target_ns_lem}
use snapshot_public.CxlFs.BlkDev.Refines.{IsDrive, IsReady}
use snapshot_public.CxlFs.BlkDev.Pages.{Holds, IsRead, read_page_ok}
use snapshot_public.CxlFs.Controller.{Page}

module _ {D : Type 0} (nvme : Nvme D) where
  refused_read :
      (env : ReadEnv) (buf : Buf) (pg : ℕ) (dev : BlkDev D) (b : ℕ × Buf)
      → IsReady nvme dev
      → dev.read_buf ≡ some b
      → env.read_accepted ≡ false
      → read_blocking nvme env buf (pg * 8) 8 dev
        ≡ some (b.1, false, record dev { read_buf = some (b.0, b.1) })
  unfolding read_blocking read_into issue_read get_read_buf
  refused_read env buf pg dev b w e refused =
      let (d, g) = namespace_at dev (pg * 8) w.count in
      let fits : ltb b.0 4096 ≡ false = ground (arith, w.room b e) in
      simp (target_ns_lem dev (pg * 8) w.count.some_ns, g, e, fits, refused)

  -- A refused read hands out the page read before: on a ready device that holds the pages of an
  -- array, with drives that read back what was written, where machine and drive serve a blocking
  -- read of one page, and the drive then refuses that of another, the first returns 0 and the page,
  -- and the second returns -1 and leaves the same bytes, those of the first page, in the buffer of
  -- its caller.
  pub read_blocking_repeats :
      (env refusing : ReadEnv) (buf buf' : Buf) (pg pg' : ℕ) (dev : BlkDev D) (pages : ℕ → Page)
      → IsDrive nvme
      → IsReady nvme dev
      → IsRead env
      → Holds nvme dev pages
      → refusing.read_accepted ≡ false
      → (content : Buf) × (dev' : BlkDev D) × (dev'' : BlkDev D) × (read_blocking nvme env buf
            (pg * 8)
            8
            dev
          ≡ some (content, true, dev'))
        × (read_blocking nvme refusing buf' (pg' * 8) 8 dev' ≡ some (content, false, dev''))
        × ((i : ℕ) → i < 4096 → content i ≡ pages pg i)
  read_blocking_repeats env refusing buf buf' pg pg' dev pages drive w ok h refused =
      let (content, dev', done, w', h', found, k, kept) =
        read_page_ok nvme env buf pg dev pages drive w ok h in
      (
        content,
        dev',
        record dev' { read_buf = some (k, content) },
        done,
        refused_read refusing buf' pg' dev' (k, content) w' kept refused,
        found,
      )

  get_read_buf-none :
      (zmalloc_succeeds : Bool) (n : ℕ) (o : Option (ℕ × Buf))
      → get_read_buf nvme zmalloc_succeeds n o ≡ none
      → zmalloc_succeeds ≡ false
  unfolding get_read_buf
  get_read_buf-none zmalloc_succeeds n none e = ground (arith, e)
  get_read_buf-none zmalloc_succeeds n (some b) e = absurd (cc e)

  -- Without namespaces a write ends the program, and a read with memory for its buffer does.
  requests_end :
      (wenv : WriteEnv) (renv : ReadEnv) (buf : Buf) (lba n : ℕ) (dev : BlkDev D)
      → dev.namespaces ≡ []
      → (write_blocking nvme wenv buf lba n dev ≡ none)
        × ((read_blocking nvme renv buf lba n dev ≡ none)
            ⊎ ((renv.zmalloc_succeeds ≡ false)
                × (read_blocking nvme renv buf lba n dev ≡ some (buf, false, dev))))
  unfolding write_blocking write read_blocking target_ns
  requests_end wenv renv buf lba n dev e = elim (Bool-cases (dev.namespace_cnt == 0)) [
    | inl z ↦ (rw z refl, inl (rw z refl))
    | inr p ↦ (
      simp (p, e),
      elim (Option-cases (get_read_buf nvme renv.zmalloc_succeeds n dev.read_buf)) [
        | inl no_memory ↦ inr (
          get_read_buf-none renv.zmalloc_succeeds n dev.read_buf no_memory,
          rw (p, no_memory) refl,
        )
        | inr (b, got) ↦ inl (rw (p, got, e) refl)
      ],
    )
  ]

  -- An `init` that returns 1 ends the program later: for a device without namespaces it leaves
  -- none, so that every blocking write behind it, whatever drive and machine answer, ends the
  -- program, by a remainder by zero or a null pointer, and so does every blocking read, but for one
  -- that finds no memory for the read buffer and returns -1.
  pub init_failed_ends_requests :
      (env : ProbeEnv D) (dev : BlkDev D)
      → dev.namespaces ≡ []
      → (init env dev).1 ≡ failed
      → (wenv : WriteEnv) (renv : ReadEnv) (buf : Buf) (lba n : ℕ)
      → (write_blocking nvme wenv buf lba n (init env dev).0 ≡ none)
        × ((read_blocking nvme renv buf lba n (init env dev).0 ≡ none)
            ⊎ ((renv.zmalloc_succeeds ≡ false)
                × (read_blocking nvme renv buf lba n (init env dev).0
                    ≡ some (buf, false, (init env dev).0))))
  unfolding init cleanup
  init_failed_ends_requests env dev e f wenv renv buf lba n =
      requests_end wenv renv buf lba n (init env dev).0 (ground arith)

module _ {D : Type 0} where
  abbrev pub IsActive : Option (Bool × D) → Type 0
  IsActive none = Unit
  IsActive (some (is_active, ns)) = is_active ≡ true

  abbrev IsAligned : BlkDev D → Type 0
  IsAligned dev = dev.namespace_cnt ≡ length dev.namespaces

  attach_namespaces_counts :
      (nss : List (Option (Bool × D))) (dev : BlkDev D)
      → All IsActive nss
      → IsAligned dev
      → IsAligned (attach_namespaces nss dev)
  unfolding attach_namespaces register_ns
  attach_namespaces_counts [] dev a h = h
  attach_namespaces_counts (none ∷ nss) dev a h = attach_namespaces_counts nss dev a.1 h
  attach_namespaces_counts (some (is_active, ns) ∷ nss) dev a h =
      attach_namespaces_counts nss _ a.1
        (ground (arith, a.0, length-append dev.namespaces (ns ∷ [])))

  probe_counts :
      (ctrlrs : List (List (Option (Bool × D)))) (dev : BlkDev D)
      → All (All IsActive) ctrlrs
      → IsAligned dev
      → IsAligned (probe ctrlrs dev)
  unfolding probe attach_cb
  probe_counts [] dev a h = h
  probe_counts (nss ∷ ctrlrs) dev a h =
      probe_counts ctrlrs _ a.1 (attach_namespaces_counts nss _ a.0 h)

  -- `init` of a new device that is ready counts its namespaces, if SPDK names active ones only.
  pub init_ready_counts :
      (env : ProbeEnv D) (dev : BlkDev D)
      → All (All IsActive) env.ctrlrs
      → dev.namespace_cnt ≡ length dev.namespaces
      → (init env dev).1 ≡ ready
      → (init env dev).0.namespace_cnt ≡ length (init env dev).0.namespaces
  unfolding init
  init_ready_counts env dev a h r = ground (arith, probe_counts env.ctrlrs dev a h)
