-- ===== src/CxlFs/Sampling.antt =====
-- membwdist.cc: the samples of missed loads that the kernel leaves in a ring, and the pages of a
-- range that they name. The kernel is taken to add no record while a loop of the code runs.
pub mod Loops
pub mod Dist
pub mod Eviction
use snapshot_public.Prelude.{
  ℕ, zero, suc, ◌+◌, ◌-◌, ◌*◌, ◌/◌, ◌%◌, ◌^◌, Bool, true, false, ◌&&◌, not, Option, none, some,
  List, [], ◌∷◌, ◌++◌, ltb, leb, ◌==◌, if◌then◌else◌,
}
use snapshot_public.CxlFs.Controller.{mark}

-- A `perf_event_header` and what follows it: whether the type is PERF_RECORD_SAMPLE, the size, and
-- the fields of a `pebs_sample_t`.
pub record PerfRecord : Type 0 where
  pub is_sample : Bool
  pub size : ℕ
  pub ip : ℕ
  pub addr : ℕ

-- The `perf_event_mmap_page`, and the record that begins at an offset of its data area.
pub record SampleBuf : Type 0 where
  pub data_head : ℕ
  pub data_tail : ℕ
  pub data_size : ℕ
  pub record_at : ℕ → PerfRecord

abbrev pub max_samples : ℕ
max_samples = 0x200

-- What the kernel answers in `start_sampling`: the descriptor of `perf_event_open` (`none` is -1)
-- and the mapped buffer (`none` is MAP_FAILED).
pub record PerfEnv : Type 0 where
  pub perf_event_fd : Option ℕ
  pub mmap_result : Option SampleBuf

-- A `MemBWDist` and the descriptors that are open.
pub record Sampler : Type 0 where
  pub sample_buf : Option SampleBuf
  pub open_fds : List ℕ

-- The part of `start_sampling` behind `perf_event_open`, by the result of `mmap`; `false` is -1.
unfoldable pub map_samples : Option SampleBuf → ℕ → Sampler → Sampler × Bool
map_samples none fd s = (record s { open_fds = fd ∷ s.open_fds }, false)
map_samples (some buf) fd s = (record s { sample_buf = some buf }, true)

-- `MemBWDist::start_sampling`
unfoldable pub start_sampling : PerfEnv → Sampler → Sampler × Bool
start_sampling env s = elim env.perf_event_fd [
  | none ↦ (s, false)
  | some fd ↦ map_samples env.mmap_result fd s
]

-- `tail += header->size` on a 64-bit word.
unfoldable pub advance : ℕ → PerfRecord → ℕ
advance tail r = (tail + r.size) % 2 ^ 64

-- The loop of `get_samples` from a tail on; `none` is a loop that has not ended within the rounds
-- of the first argument. A record of another type does not move the tail.
unfoldable pub collect : ℕ → SampleBuf → ℕ → List (ℕ × ℕ) → Option (List (ℕ × ℕ) × ℕ)
collect zero buf tail result = none
collect (suc fuel) buf tail result =
    let r = buf.record_at (tail % buf.data_size) in
    let taken = collect fuel buf (advance tail r) (result ++ (r.ip, r.addr) ∷ []) in
    let skipped = collect fuel buf tail result in
    if tail == buf.data_head then some (result, tail) else if r.is_sample then taken else skipped

-- `MemBWDist::get_samples`: the samples as pairs of `ip` and `addr`, and the buffer.
unfoldable pub get_samples : ℕ → SampleBuf → Option (List (ℕ × ℕ) × SampleBuf)
get_samples fuel buf = elim (collect fuel buf buf.data_tail []) [
  | none ↦ none
  | some r ↦ some (r.0, record buf { data_tail = r.1 })
]

-- The index of a sampled page in the range of pages, if it is in there.
unfoldable pub note_page : ℕ → ℕ → ℕ → List ℕ → List ℕ
note_page start_pg end_pg addr_pg result =
    if leb start_pg addr_pg && ltb addr_pg end_pg then mark result (addr_pg - start_pg) else result

-- The loop of `get_dist`, from a tail and a count of samples on.
unfoldable pub tally :
    (pg_sz_bits start_pg end_pg fuel : ℕ)
    → SampleBuf
    → (tail sample_cnt : ℕ) → List ℕ
    → Option (List ℕ × ℕ)
tally pg_sz_bits start_pg end_pg zero buf tail sample_cnt result = none
tally pg_sz_bits start_pg end_pg (suc fuel) buf tail sample_cnt result =
    let r = buf.record_at (tail % buf.data_size) in
    let noted = note_page start_pg end_pg (r.addr / 2 ^ pg_sz_bits) result in
    let taken = tally pg_sz_bits start_pg end_pg fuel buf (advance tail r) (sample_cnt + 1) noted in
    let skipped = tally pg_sz_bits start_pg end_pg fuel buf tail sample_cnt result in
    if tail == buf.data_head
    then some (result, tail)
    else if not r.is_sample
    then skipped
    else if ltb max_samples (sample_cnt + 1)
    then some (noted, buf.data_head)
    else taken

-- `MemBWDist::get_dist`, with the logarithm of the page size of the machine first: the keys of the
-- distribution, and the buffer.
unfoldable pub get_dist : (pg_sz_bits fuel start end : ℕ) → SampleBuf → Option (List ℕ × SampleBuf)
get_dist pg_sz_bits fuel start end buf =
    elim (tally pg_sz_bits (start / 2 ^ pg_sz_bits) (end / 2 ^ pg_sz_bits) fuel buf buf.data_tail 0
      []) [ none ↦ none | some r ↦ some (r.0, record buf { data_tail = r.1 }) ]
