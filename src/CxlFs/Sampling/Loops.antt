-- ===== src/CxlFs/Sampling/Loops.antt =====
-- The loop of `get_samples` in membwdist.cc.
use snapshot_public.Prelude.{
  ℕ, zero, suc, ◌%◌, ◌<◌, ◌≡◌, ◌≢◌, refl, ap, sym, ◌∙◌, subst, true, false, none, some, ◌↔◌, inl,
  inr, List, [], ◌∷◌, ◌++◌, map, if◌then◌else◌, length, All, append_assoc, append_nil, arith,
  Bool-cases, Option-cases,
}
use snapshot_public.CxlFs.Sampling.{PerfRecord, SampleBuf, advance, collect, get_samples}

-- From the tail on the ring holds these records, and its head is behind the last one.
abbrev pub Holds : SampleBuf → ℕ → List PerfRecord → Type 0
Holds buf tail [] = tail ≡ buf.data_head
Holds buf tail (r ∷ rs) =
    (tail ≢ buf.data_head)
    × (buf.record_at (tail % buf.data_size) ≡ r)
    × Holds buf (advance tail r) rs

abbrev pub IsSample : PerfRecord → Type 0
IsSample r = r.is_sample ≡ true

abbrev pub sample_of : PerfRecord → ℕ × ℕ
sample_of r = (r.ip, r.addr)

collect_end :
    (fuel : ℕ) (buf : SampleBuf) (tail : ℕ) (acc : List (ℕ × ℕ))
    → tail ≡ buf.data_head
    → collect (suc fuel) buf tail acc ≡ some (acc, tail)
unfolding collect
collect_end fuel buf tail acc e = ground arith

collect-none : (buf : SampleBuf) (tail : ℕ) (acc : List (ℕ × ℕ)) → collect 0 buf tail acc ≡ none
unfolding collect
collect-none buf tail acc = refl

collect_step :
    (fuel : ℕ) (buf : SampleBuf) (tail : ℕ) (acc : List (ℕ × ℕ)) (r : PerfRecord)
    → tail ≢ buf.data_head
    → buf.record_at (tail % buf.data_size) ≡ r
    → collect (suc fuel) buf tail acc ≡ (
        if r.is_sample
        then collect fuel buf (advance tail r) (acc ++ sample_of r ∷ [])
        else collect fuel buf tail acc)
unfolding collect
collect_step fuel buf tail acc r ne e =
    subst
      (λ q. collect (suc fuel) buf tail acc ≡ (
        if q.is_sample
        then collect fuel buf (advance tail q) (acc ++ sample_of q ∷ [])
        else collect fuel buf tail acc))
      e (ground arith)

collect_sample :
    (fuel : ℕ) (buf : SampleBuf) (tail : ℕ) (acc : List (ℕ × ℕ)) (r : PerfRecord)
    → tail ≢ buf.data_head
    → buf.record_at (tail % buf.data_size) ≡ r
    → IsSample r
    → collect (suc fuel) buf tail acc ≡ collect fuel buf (advance tail r) (acc ++ sample_of r ∷ [])
collect_sample fuel buf tail acc r ne e s =
    collect_step fuel buf tail acc r ne e
    ∙ ap
        (λ b.
          if b
          then collect fuel buf (advance tail r) (acc ++ sample_of r ∷ [])
          else collect fuel buf tail acc)
        s

collect_skip :
    (fuel : ℕ) (buf : SampleBuf) (tail : ℕ) (acc : List (ℕ × ℕ)) (r : PerfRecord)
    → tail ≢ buf.data_head
    → buf.record_at (tail % buf.data_size) ≡ r
    → r.is_sample ≡ false
    → collect (suc fuel) buf tail acc ≡ collect fuel buf tail acc
collect_skip fuel buf tail acc r ne e s =
    collect_step fuel buf tail acc r ne e
    ∙ ap
        (λ b.
          if b
          then collect fuel buf (advance tail r) (acc ++ sample_of r ∷ [])
          else collect fuel buf tail acc)
        s

collect_takes :
    (fuel : ℕ) (buf : SampleBuf) (tail : ℕ) (acc : List (ℕ × ℕ)) (rs : List PerfRecord)
    → Holds buf tail rs
    → All IsSample rs
    → length rs < fuel
    → collect fuel buf tail acc ≡ some (acc ++ map sample_of rs, buf.data_head)
collect_takes zero buf tail acc rs h a l = absurd (omega arith)
collect_takes (suc fuel) buf tail acc [] h a l =
    collect_end fuel buf tail acc h ∙ rw (append_nil acc, h) refl
collect_takes (suc fuel) buf tail acc (r ∷ rs) h a l =
    collect_sample fuel buf tail acc r h.0 h.1 a.0
    ∙ collect_takes fuel buf (advance tail r) (acc ++ sample_of r ∷ []) rs h.2 a.1 (omega arith)
    ∙ ap (λ t. some (t, buf.data_head)) (append_assoc acc (sample_of r ∷ []) (map sample_of rs))

collect_stuck :
    (fuel : ℕ) (buf : SampleBuf) (tail : ℕ) (acc : List (ℕ × ℕ)) (r : PerfRecord)
    → tail ≢ buf.data_head
    → buf.record_at (tail % buf.data_size) ≡ r
    → r.is_sample ≡ false
    → collect fuel buf tail acc ≡ none
collect_stuck zero buf tail acc r ne e s = collect-none buf tail acc
collect_stuck (suc fuel) buf tail acc r ne e s =
    collect_skip fuel buf tail acc r ne e s ∙ collect_stuck fuel buf tail acc r ne e s

collect-IsSample :
    (fuel : ℕ) (buf : SampleBuf) (tail : ℕ) (acc : List (ℕ × ℕ)) (rs : List PerfRecord)
    (p : List (ℕ × ℕ) × ℕ)
    → Holds buf tail rs
    → collect fuel buf tail acc ≡ some p
    → All IsSample rs
collect-IsSample fuel buf tail acc [] p h e = tt
collect-IsSample zero buf tail acc (r ∷ rs) p h e = cc (e, collect-none buf tail acc)
collect-IsSample (suc fuel) buf tail acc (r ∷ rs) p h e = elim (Bool-cases r.is_sample) [
  | inl s ↦ (
    s,
    collect-IsSample fuel buf (advance tail r) (acc ++ sample_of r ∷ []) rs p h.2
        (sym (collect_sample fuel buf tail acc r h.0 h.1 s) ∙ e),
  )
  | inr n ↦ cc (e, collect_stuck (suc fuel) buf tail acc r h.0 h.1 n)
]

-- `get_samples` takes all samples: from a ring that holds samples alone it returns, in no more
-- rounds than samples and one, the samples in order, and leaves the tail at the head.
pub get_samples_takes :
    (fuel : ℕ) (buf : SampleBuf) (rs : List PerfRecord)
    → Holds buf buf.data_tail rs
    → All IsSample rs
    → length rs < fuel
    → get_samples fuel buf ≡ some (map sample_of rs, record buf { data_tail = buf.data_head })
unfolding get_samples
get_samples_takes fuel buf rs h a l =
    ap (λ o. elim o [ none ↦ none | some r ↦ some (r.0, record buf { data_tail = r.1 }) ])
      (collect_takes fuel buf buf.data_tail [] rs h a l)

get_samples-IsSample :
    (fuel : ℕ) (buf : SampleBuf) (rs : List PerfRecord) (p : List (ℕ × ℕ) × SampleBuf)
    → Holds buf buf.data_tail rs
    → get_samples fuel buf ≡ some p
    → All IsSample rs
unfolding get_samples
get_samples-IsSample fuel buf rs p h e = elim (Option-cases (collect fuel buf buf.data_tail [])) [
  | inl n ↦ absurd (ground arith)
  | inr q ↦ collect-IsSample fuel buf buf.data_tail [] rs q.0 h q.1
]

-- A ring on which `get_samples` ends.
abbrev pub Returns : SampleBuf → Type 0
Returns buf = (fuel : ℕ) × (p : List (ℕ × ℕ) × SampleBuf) × (get_samples fuel buf ≡ some p)

-- `get_samples` returns if and only if every record of the ring is a sample: a record of another
-- type keeps its loop running for ever.
pub get_samples-Returns_iff :
    (buf : SampleBuf) (rs : List PerfRecord)
    → Holds buf buf.data_tail rs
    → Returns buf ↔ All IsSample rs
get_samples-Returns_iff buf rs h = (
  λ r. get_samples-IsSample r.0 buf rs r.1 h r.2,
  λ a. (suc (length rs), _, get_samples_takes (suc (length rs)) buf rs h a (omega arith)),
)
