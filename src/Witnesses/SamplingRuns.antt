-- ===== src/Witnesses/SamplingRuns.antt =====
-- A ring with two samples of one page of the range of PagingRuns, and one with a record of another
-- type.
use snapshot_public.Prelude.{
  ℕ, ◌≡◌, ◌↔◌, refl, inl, inr, true, false, some, [], ◌∷◌, ◌==◌, take, All, arith,
}
use snapshot_public.CxlFs.Controller.{Controller, EvictEnv, contains, erase, mark, evict_a_page}
use snapshot_public.CxlFs.Controller.Accessors.{get_shm, get_shm_len, get_shm_end}
use snapshot_public.CxlFs.Sampling.{PerfRecord, SampleBuf, advance, note_page, tally, get_dist}
use snapshot_public.CxlFs.Sampling.Loops.{Holds, IsSample}
use snapshot_public.CxlFs.Sampling.Dist.{Returns, get_dist-Returns_iff}
use snapshot_public.CxlFs.Sampling.Eviction.{Samples, IsCold, evict_a_page_spares}
use snapshot_public.Witnesses.PagingRuns.{full, working}

-- A sample with its address in page 2 of the range.
abbrev hit : PerfRecord
hit = record { is_sample = true; size = 24; ip = 5; addr = 49160 }

abbrev ring : SampleBuf
ring = record { data_head = 48; data_tail = 0; data_size = 4096; record_at = λ off. hit }

ring-Holds : Holds ring 0 (hit ∷ hit ∷ [])
unfolding advance
ring-Holds = (omega arith, refl, (omega arith, refl, refl))

abbrev due : Controller
due = record full {
  mapped_pages = 2 ∷ 3 ∷ [];
  used_pages = 2;
  max_active_pg_cnt = 2;
  dist_age = 100;
}

abbrev sampling : EvictEnv
sampling = record working { sampled = 2 ∷ [] }

due-Samples : Samples sampling due ring
unfolding get_dist tally note_page advance get_shm get_shm_end get_shm_len mark contains
due-Samples = (record ring { data_tail = 48 }, refl)

page3-IsCold : IsCold due (hit ∷ hit ∷ []) 3
unfolding get_shm get_shm_end get_shm_len
page3-IsCold (inl h) = absurd (omega (arith, h.0))
page3-IsCold (inr (inl h)) = absurd (omega (arith, h.0))
page3-IsCold (inr (inr h)) = h

evict_a_page_spares_example :
    (c' : Controller) × (x : ℕ) × (evict_a_page sampling due ≡ some (c', true))
    × (c'.mapped_pages ≡ erase (2 ∷ 3 ∷ []) x)
    × (contains (2 ∷ 3 ∷ []) x ≡ true)
    × IsCold due (hit ∷ hit ∷ []) x
evict_a_page_spares_example =
    evict_a_page_spares sampling due ring (hit ∷ hit ∷ []) refl ring-Holds due-Samples
      (inr (inl page3-IsCold)) refl refl

-- The second record is of another type.
abbrev stuck : SampleBuf
stuck = record ring { record_at = λ off. record hit { is_sample = off == 0 } }

get_dist-Returns_iff_example :
    Returns 12 40960 57344 stuck
    ↔ All IsSample (take 513 (hit ∷ record hit { is_sample = false } ∷ []))
unfolding advance
get_dist-Returns_iff_example =
    get_dist-Returns_iff 12 40960 57344 stuck (hit ∷ record hit { is_sample = false } ∷ [])
      (omega arith, refl, (omega arith, refl, refl))
