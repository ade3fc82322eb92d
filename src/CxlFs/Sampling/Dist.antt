-- ===== src/CxlFs/Sampling/Dist.antt =====
-- The loop of `get_dist` in membwdist.cc: it stops one sample behind its limit.
use snapshot_public.Prelude.{
  ℕ, zero, suc, ◌+◌, ◌-◌, ◌/◌, ◌%◌, ◌^◌, ◌≤◌, ◌<◌, ◌≡◌, ◌≢◌, refl, ap, sym, subst, ◌∙◌, Bool, true,
  false, not, Option, none, some, ◌↔◌, ◌⊎◌, inl, inr, List, [], ◌∷◌, ltb, if◌then◌else◌, take, All,
  Any, arith, Bool-cases, Option-cases,
}
use snapshot_public.CxlFs.Controller.{contains}
use snapshot_public.CxlFs.Controller.Pages.{contains-mark}
use snapshot_public.CxlFs.Sampling.{
  PerfRecord, SampleBuf, max_samples, advance, note_page, tally, get_dist,
}
use snapshot_public.CxlFs.Sampling.Loops.{Holds, IsSample}

-- The pages that some records add to a distribution.
abbrev pub note_all : (pg_sz_bits start_pg end_pg : ℕ) → List PerfRecord → List ℕ → List ℕ
note_all pg_sz_bits start_pg end_pg [] result = result
note_all pg_sz_bits start_pg end_pg (r ∷ rs) result =
    note_all pg_sz_bits start_pg end_pg rs
      (note_page start_pg end_pg (r.addr / 2 ^ pg_sz_bits) result)

module _ (pg_sz_bits start_pg end_pg : ℕ) where
  abbrev noted : PerfRecord → List ℕ → List ℕ
  noted r result = note_page start_pg end_pg (r.addr / 2 ^ pg_sz_bits) result

  tally-none :
      (buf : SampleBuf) (tail cnt : ℕ) (acc : List ℕ)
      → tally pg_sz_bits start_pg end_pg 0 buf tail cnt acc ≡ none
  unfolding tally
  tally-none buf tail cnt acc = refl

  tally_end :
      (fuel : ℕ) (buf : SampleBuf) (tail cnt : ℕ) (acc : List ℕ)
      → tail ≡ buf.data_head
      → tally pg_sz_bits start_pg end_pg (suc fuel) buf tail cnt acc ≡ some (acc, tail)
  unfolding tally
  tally_end fuel buf tail cnt acc e = ground arith

  -- One round, by whether the record is a sample and whether it is the last one that counts.
  tally_round :
      (fuel : ℕ)
      → SampleBuf
      → (tail cnt : ℕ) → List ℕ
      → PerfRecord
      → (is_sample is_last : Bool) → Option (List ℕ × ℕ)
  tally_round fuel buf tail cnt acc r is_sample is_last =
      if not is_sample
      then tally pg_sz_bits start_pg end_pg fuel buf tail cnt acc
      else if is_last
      then some (noted r acc, buf.data_head)
      else tally pg_sz_bits start_pg end_pg fuel buf (advance tail r) (cnt + 1) (noted r acc)

  tally_step :
      (fuel : ℕ) (buf : SampleBuf) (tail cnt : ℕ) (acc : List ℕ) (r : PerfRecord)
      → tail ≢ buf.data_head
      → buf.record_at (tail % buf.data_size) ≡ r
      → tally pg_sz_bits start_pg end_pg (suc fuel) buf tail cnt acc
        ≡ tally_round fuel buf tail cnt acc r r.is_sample (ltb max_samples (cnt + 1))
  unfolding tally tally_round
  tally_step fuel buf tail cnt acc r ne e =
      subst
        (λ q.
          tally pg_sz_bits start_pg end_pg (suc fuel) buf tail cnt acc
          ≡ tally_round fuel buf tail cnt acc q q.is_sample (ltb max_samples (cnt + 1)))
        e (ground arith)

  tally_sample :
      (fuel : ℕ) (buf : SampleBuf) (tail cnt : ℕ) (acc : List ℕ) (r : PerfRecord)
      → tail ≢ buf.data_head
      → buf.record_at (tail % buf.data_size) ≡ r
      → IsSample r
      → cnt < 512
      → tally pg_sz_bits start_pg end_pg (suc fuel) buf tail cnt acc
        ≡ tally pg_sz_bits start_pg end_pg fuel buf (advance tail r) (cnt + 1) (noted r acc)
  unfolding tally_round
  tally_sample fuel buf tail cnt acc r ne e s l =
      tally_step fuel buf tail cnt acc r ne e
      ∙ ap (λ b. tally_round fuel buf tail cnt acc r b (ltb max_samples (cnt + 1))) s
      ∙ ap (λ b. tally_round fuel buf tail cnt acc r true b)
          (let few : ltb max_samples (cnt + 1) ≡ false = ground arith in few)

  tally_last :
      (fuel : ℕ) (buf : SampleBuf) (tail cnt : ℕ) (acc : List ℕ) (r : PerfRecord)
      → tail ≢ buf.data_head
      → buf.record_at (tail % buf.data_size) ≡ r
      → IsSample r
      → 512 ≤ cnt
      → tally pg_sz_bits start_pg end_pg (suc fuel) buf tail cnt acc
        ≡ some (noted r acc, buf.data_head)
  unfolding tally_round
  tally_last fuel buf tail cnt acc r ne e s l =
      tally_step fuel buf tail cnt acc r ne e
      ∙ ap (λ b. tally_round fuel buf tail cnt acc r b (ltb max_samples (cnt + 1))) s
      ∙ ap (λ b. tally_round fuel buf tail cnt acc r true b)
          (let many : ltb max_samples (cnt + 1) ≡ true = ground arith in many)

  tally_stuck :
      (fuel : ℕ) (buf : SampleBuf) (tail cnt : ℕ) (acc : List ℕ) (r : PerfRecord)
      → tail ≢ buf.data_head
      → buf.record_at (tail % buf.data_size) ≡ r
      → r.is_sample ≡ false
      → tally pg_sz_bits start_pg end_pg fuel buf tail cnt acc ≡ none
  unfolding tally_round
  tally_stuck zero buf tail cnt acc r ne e s = tally-none buf tail cnt acc
  tally_stuck (suc fuel) buf tail cnt acc r ne e s =
      tally_step fuel buf tail cnt acc r ne e
      ∙ ap (λ b. tally_round fuel buf tail cnt acc r b (ltb max_samples (cnt + 1))) s
      ∙ tally_stuck fuel buf tail cnt acc r ne e s

  -- With room for `n` more samples the loop takes the first `n` of the ring.
  tally_takes :
      (n fuel : ℕ) (buf : SampleBuf) (tail cnt : ℕ) (acc : List ℕ) (rs : List PerfRecord)
      → suc n + cnt ≡ 513
      → Holds buf tail rs
      → All IsSample (take (suc n) rs)
      → suc n ≤ fuel
      → tally pg_sz_bits start_pg end_pg fuel buf tail cnt acc
        ≡ some (note_all pg_sz_bits start_pg end_pg (take (suc n) rs) acc, buf.data_head)
  tally_takes n zero buf tail cnt acc rs room h a l = absurd (omega arith)
  tally_takes n (suc fuel) buf tail cnt acc [] room h a l =
      tally_end fuel buf tail cnt acc h ∙ rw h refl
  tally_takes zero (suc fuel) buf tail cnt acc (r ∷ rs) room h a l =
      tally_last fuel buf tail cnt acc r h.0 h.1 a.0 (omega arith)
  tally_takes (suc n) (suc fuel) buf tail cnt acc (r ∷ rs) room h a l =
      tally_sample fuel buf tail cnt acc r h.0 h.1 a.0 (omega arith)
      ∙ tally_takes n fuel buf (advance tail r) (cnt + 1) (noted r acc) rs (omega arith) h.2 a.1
          (omega arith)

  tally-IsSample :
      (n fuel : ℕ) (buf : SampleBuf) (tail cnt : ℕ) (acc : List ℕ) (rs : List PerfRecord)
      (p : List ℕ × ℕ)
      → n + cnt ≡ 513
      → Holds buf tail rs
      → tally pg_sz_bits start_pg end_pg fuel buf tail cnt acc ≡ some p
      → All IsSample (take n rs)
  tally-IsSample zero fuel buf tail cnt acc rs p room h e = tt
  tally-IsSample (suc n) fuel buf tail cnt acc [] p room h e = tt
  tally-IsSample (suc n) zero buf tail cnt acc (r ∷ rs) p room h e =
      cc (e, tally-none buf tail cnt acc)
  tally-IsSample (suc zero) (suc fuel) buf tail cnt acc (r ∷ rs) p room h e =
      elim (Bool-cases r.is_sample) [
        | inl s ↦ (s, tt)
        | inr x ↦ cc (e, tally_stuck (suc fuel) buf tail cnt acc r h.0 h.1 x)
      ]
  tally-IsSample (suc (suc n)) (suc fuel) buf tail cnt acc (r ∷ rs) p room h e =
      elim (Bool-cases r.is_sample) [
        | inl s ↦ (
          s,
          tally-IsSample (suc n) fuel buf (advance tail r) (cnt + 1) (noted r acc) rs p
              (omega arith) h.2
              (sym (tally_sample fuel buf tail cnt acc r h.0 h.1 s (omega arith)) ∙ e),
        )
        | inr x ↦ cc (e, tally_stuck (suc fuel) buf tail cnt acc r h.0 h.1 x)
      ]

  -- The record samples a page of the range, by its index there.
  abbrev pub Hits : ℕ → PerfRecord → Type 0
  Hits pg r = (r.addr / 2 ^ pg_sz_bits ≡ start_pg + pg) × (start_pg + pg < end_pg)

  contains-noted :
      (pg : ℕ) (r : PerfRecord) (acc : List ℕ)
      → (contains (noted r acc) pg ≡ true) ↔ (Hits pg r ⊎ (contains acc pg ≡ true))
  unfolding note_page
  contains-noted pg r acc =
      ground (arith, contains-mark acc (r.addr / 2 ^ pg_sz_bits - start_pg) pg)

  contains-note_all :
      (pg : ℕ) (rs : List PerfRecord) (acc : List ℕ)
      → (contains (note_all pg_sz_bits start_pg end_pg rs acc) pg ≡ true)
        ↔ (Any (Hits pg) rs ⊎ (contains acc pg ≡ true))
  contains-note_all pg [] acc = ground arith
  contains-note_all pg (r ∷ rs) acc =
      ground (arith, contains-note_all pg rs (noted r acc), contains-noted pg r acc)

-- A ring on which `get_dist` ends.
abbrev pub Returns : (pg_sz_bits start end : ℕ) → SampleBuf → Type 0
Returns pg_sz_bits start end buf =
    (fuel : ℕ) × (p : List ℕ × SampleBuf) × (get_dist pg_sz_bits fuel start end buf ≡ some p)

-- `get_dist` samples the range: if the first 513 records of the ring, or all where there are
-- fewer, are samples, it returns within 513 rounds, leaves the tail at the head, and its
-- distribution has the index of a page in the range if and only if one of those samples has its
-- address in that page. The samples behind the 513th are dropped.
pub get_dist_samples :
    (pg_sz_bits fuel start end : ℕ) (buf : SampleBuf) (rs : List PerfRecord)
    → Holds buf buf.data_tail rs
    → All IsSample (take 513 rs)
    → 513 ≤ fuel
    → (dist : List ℕ) × (get_dist pg_sz_bits fuel start end buf
        ≡ some (dist, record buf { data_tail = buf.data_head }))
      × ((pg : ℕ)
          → (contains dist pg ≡ true)
            ↔ Any
                (Hits pg_sz_bits (start / 2 ^ pg_sz_bits) (end / 2 ^ pg_sz_bits) pg)
                (take 513 rs))
unfolding get_dist contains
get_dist_samples pg_sz_bits fuel start end buf rs h a l = (
  note_all pg_sz_bits (start / 2 ^ pg_sz_bits) (end / 2 ^ pg_sz_bits) (take 513 rs) [],
  ap (λ o. elim o [ none ↦ none | some r ↦ some (r.0, record buf { data_tail = r.1 }) ])
      (tally_takes pg_sz_bits (start / 2 ^ pg_sz_bits) (end / 2 ^ pg_sz_bits) 512 fuel buf
        buf.data_tail 0 [] rs refl h a l),
  λ pg. ground (
    arith,
    contains-note_all pg_sz_bits (start / 2 ^ pg_sz_bits) (end / 2 ^ pg_sz_bits) pg (take 513 rs)
        [],
  ),
)

pub get_dist-IsSample :
    (pg_sz_bits fuel start end : ℕ) (buf : SampleBuf) (rs : List PerfRecord)
    (p : List ℕ × SampleBuf)
    → Holds buf buf.data_tail rs
    → get_dist pg_sz_bits fuel start end buf ≡ some p
    → All IsSample (take 513 rs)
unfolding get_dist
get_dist-IsSample pg_sz_bits fuel start end buf rs p h e =
    elim (Option-cases (
      tally pg_sz_bits (start / 2 ^ pg_sz_bits) (end / 2 ^ pg_sz_bits) fuel buf buf.data_tail 0
        [])) [
          | inl n ↦ absurd (ground arith)
          | inr q ↦
              tally-IsSample pg_sz_bits (start / 2 ^ pg_sz_bits) (end / 2 ^ pg_sz_bits) 513 fuel buf
                buf.data_tail 0 [] rs q.0 refl h q.1
        ]

-- `get_dist` returns if and only if the first 513 records of the ring, or all where there are
-- fewer, are samples: a record of another type among them keeps its loop running for ever, and
-- with it the eviction that waits for the distribution.
pub get_dist-Returns_iff :
    (pg_sz_bits start end : ℕ) (buf : SampleBuf) (rs : List PerfRecord)
    → Holds buf buf.data_tail rs
    → Returns pg_sz_bits start end buf ↔ All IsSample (take 513 rs)
get_dist-Returns_iff pg_sz_bits start end buf rs h = (
  λ r. get_dist-IsSample pg_sz_bits r.0 start end buf rs r.1 h r.2,
  λ a. let d = get_dist_samples pg_sz_bits 513 start end buf rs h a (omega arith) in (513, _, d.1),
)
