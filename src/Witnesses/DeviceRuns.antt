-- ===== src/Witnesses/DeviceRuns.antt =====
-- Three drives under one block device, and requests that they serve, refuse and fail.
use snapshot_public.Prelude.{
  ℕ, zero, suc, get_elem?, ◌∙◌, ◌⊎◌, ◌+◌, ◌-◌, ◌*◌, ◌/◌, ◌%◌, ◌≤◌, ◌<◌, ◌≡◌, refl, ap, true, false,
  ◌&&◌, none, some, List, [], ◌∷◌, ltb, leb, if◌then◌else◌, arith,
}
use snapshot_public.CxlFs.Controller.{written, write_back}
use snapshot_public.CxlFs.BlkDev.{Buf, Nvme, BlkDev, ProbeEnv, init}
use snapshot_public.CxlFs.BlkDev.Requests.{
  WriteEnv, ReadEnv, wait, process_completions, io_complete, read_blocking, write_blocking,
}
use snapshot_public.CxlFs.BlkDev.Buffers.{IsWritten, IsIdle}
use snapshot_public.CxlFs.BlkDev.Writes.{write_blocking_hides_errors}
use snapshot_public.CxlFs.BlkDev.Refines.{IsDrive, IsReady, page_in, page_of}
use snapshot_public.CxlFs.BlkDev.Pages.{
  Holds, IsRead, Request, Reply, write_page, read_page, run_array, run_requests, SameReplies,
  run_requests_refines,
}
use snapshot_public.CxlFs.BlkDev.Failures.{read_blocking_repeats, init_failed_ends_requests}
use snapshot_public.CxlFs.BlkDev.Caching.{flush_pages, flush_pages_refines}

-- A drive as the bytes of its sectors.
abbrev Sectors : Type 0
Sectors = ℕ → ℕ → ℕ

abbrev drive : Nvme Sectors
drive = record {
  is_zns = λ d. false;
  read = λ d lba n i. d (lba + i / 512) (i % 512);
  write =
      λ d lba n buf s o. if leb lba s && ltb s (lba + n) then buf ((s - lba) * 512 + o) else d s o;
  failed_write = λ d lba n buf s o. 0;
  reset_zone = λ d lba. d;
}

inside :
    (buf : Buf) (d : Sectors) (lba n i : ℕ)
    → i < n * 512
    → (if leb lba (lba + i / 512) && ltb (lba + i / 512) (lba + n)
        then buf ((lba + i / 512 - lba) * 512 + i % 512)
        else d (lba + i / 512) (i % 512))
      ≡ buf ((lba + i / 512 - lba) * 512 + i % 512)
inside buf d lba n i h = ground arith

outside :
    (buf : Buf) (d : Sectors) (lba n lba' n' i : ℕ)
    → (lba + n ≤ lba') ⊎ (lba' + n' ≤ lba)
    → i < n' * 512
    → (if leb lba (lba' + i / 512) && ltb (lba' + i / 512) (lba + n)
        then buf ((lba' + i / 512 - lba) * 512 + i % 512)
        else d (lba' + i / 512) (i % 512))
      ≡ d (lba' + i / 512) (i % 512)
outside buf d lba n lba' n' i out h = ground arith

offset_in : (lba i : ℕ) → (lba + i / 512 - lba) * 512 + i % 512 ≡ i
offset_in lba i = omega arith

drive-IsDrive : IsDrive drive
drive-IsDrive = record {
  read_back = λ d lba n buf i h. inside buf d lba n i h ∙ ap buf (offset_in lba i);
  read_other = λ d lba n buf lba' n' i out h. outside buf d lba n lba' n' i out h;
  same_kind = λ d lba n buf. refl;
}

-- Every sector of the first drive is full of ones, and so on.
abbrev device : BlkDev Sectors
device = record {
  has_controllers = true;
  namespaces = (λ s o. 1) ∷ (λ s o. 2) ∷ (λ s o. 3) ∷ [];
  namespace_cnt = 3;
  read_buf = none;
  dma_bufs = 0;
  mapped_cmbs = 0;
}

device-IsReady : IsReady drive device
device-IsReady = record {
  count = record { counted = refl; some_ns = omega arith };
  plain = (refl, (refl, (refl, tt)));
  room = λ b e. absurd (cc e);
}

abbrev writing : WriteEnv
writing = record {
  map_cmb = some 512;
  zmalloc_succeeds = true;
  reset_accepted = true;
  reset_polls = [];
  write_accepted = true;
  first_poll = none;
  polls = none ∷ some false ∷ [];
}

writing-IsWritten : IsWritten writing
unfolding wait process_completions io_complete
writing-IsWritten = record { zmalloc = refl; accepted = refl; done = refl }

abbrev reading : ReadEnv
reading = record {
  zmalloc_succeeds = true;
  read_accepted = true;
  polls = some false ∷ [];
  failed_buf = λ _. 0;
}

reading-IsRead : IsRead reading
unfolding wait process_completions io_complete
reading-IsRead = record { zmalloc = refl; accepted = refl; done = refl }

abbrev requests : List Request
requests =
    write_page writing 3 (λ i. i) ∷ read_page reading 3 (λ _. 9) ∷ read_page reading 4 (λ _. 9) ∷ []

pages_of : (r pg i : ℕ) → r < 3 → page_in drive (get_elem? device.namespaces r) pg i ≡ r + 1
unfolding page_in
pages_of zero pg i h = refl
pages_of (suc zero) pg i h = refl
pages_of (suc (suc zero)) pg i h = refl
pages_of (suc (suc (suc r))) pg i h = absurd (omega arith)

device-Holds : Holds drive device (λ pg i. pg * 8 % 3 + 1)
unfolding page_of
device-Holds = λ pg i h. pages_of (pg * 8 % 3) pg i (omega arith)

run_requests_refines_example :
    (replies : List Reply) × (dev' : BlkDev Sectors) × (run_requests drive device requests
      ≡ some (replies, dev'))
    × SameReplies replies (run_array (λ pg i. pg * 8 % 3 + 1) requests)
    × IsReady drive dev'
run_requests_refines_example =
    run_requests_refines drive requests device (λ pg i. pg * 8 % 3 + 1) drive-IsDrive device-IsReady
      device-Holds (writing-IsWritten, (reading-IsRead, (reading-IsRead, tt)))

-- The drive takes the write and completes it with an error.
abbrev failing : WriteEnv
failing = record writing { polls = none ∷ some true ∷ [] }

write_blocking_hides_errors_example :
    (dev' : BlkDev Sectors) × (write_blocking drive failing (λ i. i) 8 8 device ≡ some (true, dev'))
    × (dev'.namespaces ≡ (λ s o. 1) ∷ (λ s o. 2) ∷ (λ s o. 0) ∷ [])
    × IsIdle device dev'
unfolding wait process_completions io_complete
write_blocking_hides_errors_example =
    write_blocking_hides_errors drive failing (λ i. i) 8 8 device (λ s o. 3) device-IsReady.count
      refl refl refl refl refl

read_blocking_repeats_example :
    (content : Buf) × (dev' : BlkDev Sectors) × (dev'' : BlkDev Sectors) × (read_blocking drive
        reading
        (λ _. 9)
        (5 * 8)
        8
        device
      ≡ some (content, true, dev'))
    × (read_blocking drive (record reading { read_accepted = false }) (λ _. 9) (6 * 8) 8 dev'
        ≡ some (content, false, dev''))
    × ((i : ℕ) → i < 4096 → content i ≡ 5 * 8 % 3 + 1)
read_blocking_repeats_example =
    read_blocking_repeats drive reading (record reading { read_accepted = false }) (λ _. 9) (λ _. 9)
      5 6 device (λ pg i. pg * 8 % 3 + 1) drive-IsDrive device-IsReady reading-IsRead device-Holds
      refl

-- One controller with one namespace is found, but the probe fails.
abbrev probing : ProbeEnv Sectors
probing = record {
  env_starts = true;
  ctrlrs = (some (true, λ s o. 1) ∷ []) ∷ [];
  probe_succeeds = false;
  qpairs_allocated = true;
}

abbrev unprobed : BlkDev Sectors
unprobed = record {
  has_controllers = false;
  namespaces = [];
  namespace_cnt = 0;
  read_buf = none;
  dma_bufs = 0;
  mapped_cmbs = 0;
}

init_failed_ends_requests_example :
    (write_blocking drive writing (λ i. i) 8 8 (init probing unprobed).0 ≡ none)
    × ((read_blocking drive reading (λ i. i) 8 8 (init probing unprobed).0 ≡ none)
        ⊎ ((true ≡ false)
            × (read_blocking drive reading (λ i. i) 8 8 (init probing unprobed).0
                ≡ some ((λ i. i), false, (init probing unprobed).0))))
unfolding init
init_failed_ends_requests_example =
    init_failed_ends_requests drive probing unprobed refl refl writing reading (λ i. i) 8 8

flush_pages_refines_example :
    (dev' : BlkDev Sectors) × (blk' : ℕ → ℕ → ℕ) × (flush_pages drive
        (λ pg. writing)
        (λ pg i. pg + i)
        (4 ∷ 2 ∷ [])
        device
      ≡ some dev')
    × (write_back (λ _. written) (λ pg i. pg + i) (4 ∷ 2 ∷ []) (λ lba i. lba % 3 + 1) ≡ some blk')
    × IsReady drive dev'
    × Holds drive dev' (λ pg. blk' (pg * 8))
flush_pages_refines_example =
    flush_pages_refines drive (λ pg. writing) (λ pg i. pg + i) (4 ∷ 2 ∷ []) device
      (λ lba i. lba % 3 + 1) drive-IsDrive device-IsReady (λ pg. writing-IsWritten) device-Holds
