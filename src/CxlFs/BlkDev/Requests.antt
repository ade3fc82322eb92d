-- ===== src/CxlFs/BlkDev/Requests.antt =====
-- The requests of blkdev.cc: `read_blocking`, `write`, `write_blocking` and what they wait for.
use snapshot_public.Prelude.{
  ℕ, ◌+◌, ◌-◌, ◌*◌, ◌%◌, ◌^◌, Bool, true, false, not, Option, none, some, List, [], ◌∷◌, ltb, ◌==◌,
  if◌then◌else◌, get_elem?, set, ◌>>=◌,
}
use snapshot_public.CxlFs.BlkDev.{Buf, Nvme, BlkDev}

-- A `ubd_sequence` of a write: the place of its namespace, the request, and 0 while it is pending,
-- 1 once it is done or 2 if it failed.
pub record Sequence : Type 0 where
  pub ns : ℕ
  pub start_lba : ℕ
  pub lba_count : ℕ
  pub buf : Buf
  pub is_write : Bool
  pub using_cmb_io : Bool
  pub is_completed : ℕ

-- A poll of the queue pair brings no completion of the request (`none`), or one, and whether it is
-- an error.
abbrev pub Poll : Type 0
Poll = Option Bool

-- What the calls answer in `write`: the size of the controller's buffer if it has one, whether the
-- allocation succeeds, whether the commands are accepted, and what polls bring.
pub record WriteEnv : Type 0 where
  pub map_cmb : Option ℕ
  pub zmalloc_succeeds : Bool
  pub reset_accepted : Bool
  pub reset_polls : List Poll
  pub write_accepted : Bool
  pub first_poll : Poll
  pub polls : List Poll

-- And in `read_blocking`; `failed_buf` is what a read that fails leaves in the buffer.
pub record ReadEnv : Type 0 where
  pub zmalloc_succeeds : Bool
  pub read_accepted : Bool
  pub polls : List Poll
  pub failed_buf : Buf

-- `UserBlkDev::io_complete`: the new `is_completed`.
unfoldable pub io_complete : Bool → ℕ
io_complete is_error = if is_error then 2 else 1

-- `spdk_nvme_qpair_process_completions`, by what it brings for the request.
unfoldable pub process_completions : Poll → ℕ → ℕ
unfolding io_complete
process_completions none is_completed = is_completed
process_completions (some is_error) is_completed = io_complete is_error

-- `while (not is_completed)`; `none` is a loop that the polls do not end.
unfoldable pub wait : List Poll → ℕ → Option ℕ
wait [] is_completed = if is_completed == 0 then none else some is_completed
wait (p ∷ ps) is_completed =
    let rest = wait ps (process_completions p is_completed) in
    if is_completed == 0 then rest else some is_completed

-- Whether the controller's buffer is used for so many sectors.
unfoldable pub fits_cmb : Option ℕ → ℕ → Bool
fits_cmb none lba_count = false
fits_cmb (some sz) lba_count = not (ltb sz (lba_count * 2 ^ 9))

module _ {D : Type 0} where
  -- `ubd_sequence::free`
  unfoldable pub free : Sequence → BlkDev D → BlkDev D
  free s dev =
      if not s.is_write
      then dev
      else if s.using_cmb_io
      then record dev { mapped_cmbs = dev.mapped_cmbs - 1 }
      else record dev { dma_bufs = dev.dma_bufs - 1 }

  -- The place of the namespace of a sector. `none` is the trap of a remainder by zero.
  unfoldable pub target_ns : BlkDev D → ℕ → Option ℕ
  target_ns dev start_lba =
      if dev.namespace_cnt == 0 then none else some (start_lba % dev.namespace_cnt)

  unfoldable pub map_cmb : Option ℕ → BlkDev D → BlkDev D
  map_cmb none dev = dev
  map_cmb (some sz) dev = record dev { mapped_cmbs = dev.mapped_cmbs + 1 }

  -- The buffer of a write: whether it is the controller's (`none` is a failed allocation), and the
  -- device that holds it. A buffer of the controller that is too small stays mapped.
  unfoldable pub write_buf : WriteEnv → ℕ → BlkDev D → Option Bool × BlkDev D
  unfolding map_cmb
  write_buf env lba_count dev =
      let mapped = map_cmb env.map_cmb dev in
      if fits_cmb env.map_cmb lba_count
      then (some true, mapped)
      else if env.zmalloc_succeeds
      then (some false, record mapped { dma_bufs = mapped.dma_bufs + 1 })
      else (none, mapped)

module _ {D : Type 0} (nvme : Nvme D) where
  -- The reset of the first zone before a write, by `reset_zone_and_wait_for_completion`; `none` is
  -- the exit on an error, there or in `reset_zone_complete`.
  unfoldable pub reset_first_zone : WriteEnv → D → Option D
  reset_first_zone env d = if not env.reset_accepted then none else elim (wait env.reset_polls 0) [
    | none ↦ none
    | some is_completed ↦ if is_completed == 2 then none else some (nvme.reset_zone d 0)
  ]

  -- The namespace once the write of the sequence has this `is_completed`; while it is pending, what
  -- was there before.
  unfoldable pub settle : Sequence → ℕ → D → D
  settle s is_completed d =
      if is_completed == 0
      then d
      else if is_completed == 1
      then nvme.write d s.start_lba s.lba_count s.buf
      else nvme.failed_write d s.start_lba s.lba_count s.buf

  -- The part of `write` behind the choice of the buffer: the sequence, `none` for a null pointer,
  -- and the device. The namespace has the bytes once the request is done.
  unfoldable pub submit :
      WriteEnv
      → Buf
      → (start_lba lba_count ns : ℕ) → Bool
      → BlkDev D
      → D
      → Option (Option Sequence × BlkDev D)
  submit env buf start_lba lba_count ns using_cmb_io dev d =
      let s : Sequence = record {
        ns = ns;
        start_lba = start_lba;
        lba_count = lba_count;
        buf = buf;
        is_write = true;
        using_cmb_io = using_cmb_io;
        is_completed = process_completions env.first_poll 0;
      } in
      elim (if nvme.is_zns d then reset_first_zone env d else some d) [
        | none ↦ none
        | some d' ↦
            if not env.write_accepted
            then some (none, record dev { namespaces = set dev.namespaces ns d' })
            else some (
              some s,
              record dev { namespaces = set dev.namespaces ns (settle s s.is_completed d') },
            )
      ]

  -- `UserBlkDev::write`. `none` is the end of the program, also on a namespace that is not there.
  unfoldable pub write :
      WriteEnv → Buf → (start_lba lba_count : ℕ) → BlkDev D → Option (Option Sequence × BlkDev D)
  write env buf start_lba lba_count dev = do
    ns ← target_ns dev start_lba
    d ← get_elem? dev.namespaces ns
    let (in_cmb, dev') = write_buf env lba_count dev
    elim in_cmb [
      | none ↦ some (none, dev')
      | some using_cmb_io ↦ submit env buf start_lba lba_count ns using_cmb_io dev' d
    ]

  -- The wait of `write_blocking` for its sequence: the device after it.
  unfoldable pub finish : WriteEnv → Sequence → BlkDev D → Option (BlkDev D)
  finish env s dev = if not (s.is_completed == 0) then some dev else do
    is_completed ← wait env.polls 0
    d ← get_elem? dev.namespaces s.ns
    some (record dev { namespaces = set dev.namespaces s.ns (settle s is_completed d) })

  -- `UserBlkDev::write_blocking`; `true` is 0. `free` is called on a null pointer too: `none`.
  unfoldable pub write_blocking :
      WriteEnv → Buf → (start_lba lba_count : ℕ) → BlkDev D → Option (Bool × BlkDev D)
  write_blocking env buf start_lba lba_count dev = do
    (sequence, dev') ← write env buf start_lba lba_count dev
    s ← sequence
    dev'' ← finish env s dev'
    some (true, free s dev'')

  -- The read buffer: the one of the first read, whatever its size. `none` is a failed allocation.
  unfoldable pub get_read_buf : Bool → ℕ → Option (ℕ × Buf) → Option (ℕ × Buf)
  get_read_buf zmalloc_succeeds lba_count (some b) = some b
  get_read_buf zmalloc_succeeds lba_count none =
      if zmalloc_succeeds then some (lba_count * 2 ^ 9, λ _. 0) else none

  -- The command of `read_blocking`: what the buffer holds behind it and `is_completed`.
  unfoldable pub issue_read : ReadEnv → (start_lba lba_count : ℕ) → D → Buf → Option (Buf × ℕ)
  issue_read env start_lba lba_count d old = if not env.read_accepted then some (old, 0) else do
    is_completed ← wait env.polls 0
    some (
      if is_completed == 1 then nvme.read d start_lba lba_count else env.failed_buf,
      is_completed,
    )

  -- The part of `read_blocking` behind the allocation. `none` is also an overrun of the buffer.
  unfoldable pub read_into :
      ReadEnv → (start_lba lba_count : ℕ) → D → ℕ × Buf → BlkDev D → Option (Buf × Bool × BlkDev D)
  read_into env start_lba lba_count d b dev = if ltb b.0 (lba_count * 2 ^ 9) then none else do
    (content, is_completed) ← issue_read env start_lba lba_count d b.1
    some (content, is_completed == 1, record dev { read_buf = some (b.0, content) })

  -- `UserBlkDev::read_blocking`: the first `lba_count << 9` bytes that it leaves in `buf`, whether
  -- it returns 0, and the device. On a failed allocation `buf` keeps its bytes; `none` is also a
  -- namespace that is not there, which is only read behind the allocation.
  unfoldable pub read_blocking :
      ReadEnv → Buf → (start_lba lba_count : ℕ) → BlkDev D → Option (Buf × Bool × BlkDev D)
  read_blocking env buf start_lba lba_count dev = do
    ns ← target_ns dev start_lba
    elim (get_read_buf env.zmalloc_succeeds lba_count dev.read_buf) [
      | none ↦ some (buf, false, dev)
      | some b ↦ (get_elem? dev.namespaces ns >>= λ d. read_into env start_lba lba_count d b dev)
    ]
