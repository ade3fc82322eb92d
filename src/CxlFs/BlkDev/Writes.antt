-- ===== src/CxlFs/BlkDev/Writes.antt =====
-- `UserBlkDev::write_blocking` in blkdev.cc.
use snapshot_public.Prelude.{
  ℕ, ◌%◌, ◌≡◌, ◌≢◌, refl, ap, sym, subst, ◌∙◌, Bool, true, false, some, inl, inr, List, [], ◌∷◌,
  ◌==◌, get_elem?, set, arith, Bool-cases, get_elem?-set_self, set-set,
}
use snapshot_public.CxlFs.BlkDev.{Buf, Nvme, BlkDev}
use snapshot_public.CxlFs.BlkDev.Requests.{
  Sequence, Poll, WriteEnv, process_completions, wait, free, settle, submit, write, finish,
  write_blocking,
}
use snapshot_public.CxlFs.BlkDev.Buffers.{
  IsCounted, IsWritten, IsIdle, target_ns_lem, write_buf-IsBuffered, free-IsBuffered,
}

module _ {D : Type 0} (nvme : Nvme D) where
  -- The sequence that an accepted write returns.
  abbrev request : WriteEnv → Buf → (lba n ns : ℕ) → Bool → Sequence
  request env buf lba n ns in_cmb = record {
    ns = ns;
    start_lba = lba;
    lba_count = n;
    buf = buf;
    is_write = true;
    using_cmb_io = in_cmb;
    is_completed = process_completions env.first_poll 0;
  }

  submit_ok :
      (env : WriteEnv) (buf : Buf) (lba n ns : ℕ) (in_cmb : Bool) (dev : BlkDev D) (d : D)
      → env.write_accepted ≡ true
      → nvme.is_zns d ≡ false
      → submit nvme env buf lba n ns in_cmb dev d
        ≡ some (
          some (request env buf lba n ns in_cmb),
          record dev {
            namespaces = set dev.namespaces ns (
                settle nvme
                  (request env buf lba n ns in_cmb)
                  (process_completions env.first_poll 0)
                  d);
          },
        )
  unfolding submit
  submit_ok env buf lba n ns in_cmb dev d a z = rw (submit, z, a) refl

  wait_set : (ps : List Poll) (n : ℕ) → n ≢ 0 → wait ps n ≡ some n
  unfolding wait
  wait_set [] n h = ground arith
  wait_set (p ∷ ps) n h = ground arith

  settle_done :
      (s : Sequence) (k : ℕ) (d : D)
      → k ≡ 1
      → settle nvme s k d ≡ nvme.write d s.start_lba s.lba_count s.buf
  unfolding settle
  settle_done s k d e = ground arith

  settle_pending : (s : Sequence) (k : ℕ) (d : D) → k ≡ 0 → settle nvme s k d ≡ d
  unfolding settle
  settle_pending s k d e = ground arith

  -- The device with a new state of one namespace.
  abbrev put : BlkDev D → ℕ → D → BlkDev D
  put dev ns d = record dev { namespaces = set dev.namespaces ns d }

  finish_pending :
      (env : WriteEnv) (s : Sequence) (dev : BlkDev D) (d d' : D) (k : ℕ)
      → s.is_completed ≡ 0
      → wait env.polls 0 ≡ some k
      → get_elem? dev.namespaces s.ns ≡ some d
      → finish nvme env s (put dev s.ns d') ≡ some (put dev s.ns (settle nvme s k d'))
  unfolding finish
  finish_pending env s dev d d' k e h g = simp (
    finish,
    e,
    h,
    get_elem?-set_self dev.namespaces s.ns d d' g,
    set-set dev.namespaces s.ns d' (settle nvme s k d'),
  )

  finish_done :
      (env : WriteEnv) (s : Sequence) (dev : BlkDev D)
      → s.is_completed ≢ 0
      → finish nvme env s dev ≡ some dev
  unfolding finish
  finish_done env s dev n = ground arith

  -- However early the request completes, the namespace ends as its completion leaves it.
  finish_settles :
      (env : WriteEnv) (s : Sequence) (dev : BlkDev D) (d : D) (k : ℕ)
      → wait env.polls s.is_completed ≡ some k
      → get_elem? dev.namespaces s.ns ≡ some d
      → finish nvme env s (put dev s.ns (settle nvme s s.is_completed d))
        ≡ some (put dev s.ns (settle nvme s k d))
  finish_settles env s dev d k h g = elim (Bool-cases (s.is_completed == 0)) [
    | inl p ↦
        let e : s.is_completed ≡ 0 = ground arith in
        ap (λ t. finish nvme env s (put dev s.ns t)) (settle_pending s s.is_completed d e)
        ∙ finish_pending env s dev d d k e (subst (λ j. wait env.polls j ≡ some k) e h) g
    | inr o ↦
        let n : s.is_completed ≢ 0 = ground arith in
        let same : s.is_completed ≡ k = cc (h, wait_set env.polls s.is_completed n) in
        finish_done env s (put dev s.ns (settle nvme s s.is_completed d)) n
        ∙ ap (λ j. some (put dev s.ns (settle nvme s j d))) same
  ]

  -- A blocking write that finds memory, and that the drive takes and completes, returns 0 and
  -- changes one namespace at most, to what the completion leaves there.
  write_blocking_settles :
      (env : WriteEnv) (buf : Buf) (lba n : ℕ) (dev : BlkDev D) (d : D) (k : ℕ)
      → IsCounted dev
      → env.zmalloc_succeeds ≡ true
      → env.write_accepted ≡ true
      → wait env.polls (process_completions env.first_poll 0) ≡ some k
      → get_elem? dev.namespaces (lba % dev.namespace_cnt) ≡ some d
      → nvme.is_zns d ≡ false
      → (in_cmb : Bool) × (dev' : BlkDev D) × (write_blocking nvme env buf lba n dev
          ≡ some (true, dev'))
        × (dev'.namespaces
            ≡ set dev.namespaces
                (lba % dev.namespace_cnt)
                (settle nvme (request env buf lba n (lba % dev.namespace_cnt) in_cmb) k d))
        × IsIdle dev dev'
  unfolding write_blocking write
  write_blocking_settles env buf lba n dev d k w memory accepted done g z =
      let ns = lba % dev.namespace_cnt in
      let (in_cmb, dev1, taken, same, b) = write_buf-IsBuffered env n dev memory in
      let s = request env buf lba n ns in_cmb in
      let g1 : get_elem? dev1.namespaces ns ≡ some d =
        subst (λ l. get_elem? l ns ≡ some d) (sym same) g in
      let dev2 = put dev1 ns (settle nvme s k d) in
      let idle =
        free-IsBuffered s dev dev2 (record { cnt = b.cnt; rbuf = b.rbuf; bufs = b.bufs }) refl in
      (
        in_cmb,
        free s dev2,
        rw
            (
              target_ns_lem dev lba w.some_ns,
              g,
              ap (λ p. p.0) taken,
              ap (λ p. p.1) taken,
              submit_ok env buf lba n ns in_cmb dev1 d accepted z,
              finish_settles env s dev1 d k done g1,
            )
            refl,
        idle.0 ∙ ap (λ l. set l ns (settle nvme s k d)) same,
        idle.1,
      )

  -- A blocking write that the machine and the drive serve returns 0, and changes one namespace: a
  -- drive that is not zoned has the bytes from the sector on.
  pub write_blocking_ok :
      (env : WriteEnv) (buf : Buf) (lba n : ℕ) (dev : BlkDev D) (d : D)
      → IsCounted dev
      → IsWritten env
      → get_elem? dev.namespaces (lba % dev.namespace_cnt) ≡ some d
      → nvme.is_zns d ≡ false
      → (dev' : BlkDev D) × (write_blocking nvme env buf lba n dev ≡ some (true, dev'))
        × (dev'.namespaces ≡ set dev.namespaces (lba % dev.namespace_cnt) (nvme.write d lba n buf))
        × IsIdle dev dev'
  write_blocking_ok env buf lba n dev d w ok g z =
      let (in_cmb, dev', run, nss, idle) =
        write_blocking_settles env buf lba n dev d 1 w ok.zmalloc ok.accepted ok.done g z in
      let s = request env buf lba n (lba % dev.namespace_cnt) in_cmb in
      (
        dev',
        run,
        nss ∙ ap (set dev.namespaces (lba % dev.namespace_cnt)) (settle_done s 1 d refl),
        idle,
      )

  settle_failed :
      (s : Sequence) (d : D) → settle nvme s 2 d ≡ nvme.failed_write d s.start_lba s.lba_count s.buf
  unfolding settle
  settle_failed s d = refl

  -- `write_blocking` does not tell of a failed write: on a device with namespaces, all of them
  -- counted, where the request finds memory, and the drive is not zoned, takes the request, but
  -- completes it with an error, it returns 0 all the same, and the namespace is as the failed write
  -- leaves it, whatever that is.
  pub write_blocking_hides_errors :
      (env : WriteEnv) (buf : Buf) (lba n : ℕ) (dev : BlkDev D) (d : D)
      → IsCounted dev
      → env.zmalloc_succeeds ≡ true
      → env.write_accepted ≡ true
      → wait env.polls (process_completions env.first_poll 0) ≡ some 2
      → get_elem? dev.namespaces (lba % dev.namespace_cnt) ≡ some d
      → nvme.is_zns d ≡ false
      → (dev' : BlkDev D) × (write_blocking nvme env buf lba n dev ≡ some (true, dev'))
        × (dev'.namespaces
            ≡ set dev.namespaces (lba % dev.namespace_cnt) (nvme.failed_write d lba n buf))
        × IsIdle dev dev'
  write_blocking_hides_errors env buf lba n dev d w memory accepted failed g z =
      let (in_cmb, dev', run, nss, idle) =
        write_blocking_settles env buf lba n dev d 2 w memory accepted failed g z in
      let s = request env buf lba n (lba % dev.namespace_cnt) in_cmb in
      (dev', run, nss ∙ ap (set dev.namespaces (lba % dev.namespace_cnt)) (settle_failed s d), idle)
