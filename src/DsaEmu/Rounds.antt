-- ===== src/DsaEmu/Rounds.antt =====
-- Rounds of the thread of libdsaemu.cc between two changes of the queue by its user.
use snapshot_public.Prelude.{
  ℕ, zero, suc, ◌+◌, ◌%◌, ◌≤◌, ◌<◌, ◌≡◌, ◌⊎◌, refl, ◌∙◌, false, some, ◌==◌, get_elem?, arith, inl,
  inr,
}
use snapshot_public.StoreInst.Memory.{Mem, memcpy, memcpy_ext, memcpy-memcpy, memcpy_outside, word}
use snapshot_public.DsaEmu.{Jobdesc, Device, serve, dsa_round, dsa_rounds}

-- The copy does not change what it reads.
abbrev pub IsApart : Jobdesc → Type 0
IsApart job = (job.src + job.bytes ≤ job.dst) ⊎ (job.dst + job.bytes ≤ job.src)

abbrev pub copied : Jobdesc → Mem → Mem
copied job m = memcpy m job.dst m job.src job.bytes

outside :
    (job : Jobdesc) (i : ℕ)
    → IsApart job
    → i < job.bytes
    → (job.src + i < job.dst) ⊎ (job.dst + job.bytes ≤ job.src + i)
outside job i (inl a) h = inl (omega arith)
outside job i (inr a) h = inr (omega arith)

copied-copied : (job : Jobdesc) (m : Mem) → IsApart job → copied job (copied job m) ≡ copied job m
copied-copied job m apart =
    memcpy_ext (copied job m) job.dst (copied job m) m job.src job.src job.bytes
      (λ i h. memcpy_outside m job.dst m job.src job.bytes (job.src + i) (outside job i apart h))
    ∙ memcpy-memcpy m job.dst m m job.src job.src job.bytes

dsa_round_ahead :
    (d : Device) (job : Jobdesc)
    → get_elem? d.queue d.queue_tail ≡ some job
    → d.queue_tail < d.queue_head
    → dsa_round d ≡ some (serve job d)
unfolding dsa_round
dsa_round_ahead d job e h =
    let apart : (d.queue_head == d.queue_tail) ≡ false = ground arith in rw (apart, e) refl

-- The thread serves one descriptor again and again: with the head ahead of the tail, and a descriptor
-- at the tail whose ranges are apart, any positive number of rounds that brings the head to no
-- overflow does the copy of that descriptor, and no other; the tail stays.
pub dsa_rounds-copied :
    (n : ℕ) (d : Device) (job : Jobdesc)
    → get_elem? d.queue d.queue_tail ≡ some job
    → IsApart job
    → d.queue_tail < d.queue_head
    → d.queue_head + suc n < word
    → (d' : Device) × (dsa_rounds (suc n) d ≡ some d')
      × (d'.mem ≡ copied job d.mem)
      × (d'.queue_tail ≡ d.queue_tail)
      × (d'.queue_head ≡ d.queue_head + suc n)
unfolding dsa_rounds serve
dsa_rounds-copied zero d job e apart h k =
    (serve job d, rw (dsa_round_ahead d job e h) refl, refl, refl, omega arith)
dsa_rounds-copied (suc n) d job e apart h k =
    let next : (d.queue_head + 1) % word ≡ d.queue_head + 1 = omega arith in
    let (d', done, mem, tail, head) =
      dsa_rounds-copied n (serve job d) job e apart (omega (arith, next)) (omega (arith, next)) in
    (
      d',
      rw (dsa_round_ahead d job e h) done,
      mem ∙ copied-copied job d.mem apart,
      tail,
      omega (arith, head, next),
    )
