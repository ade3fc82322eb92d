-- ===== src/CxlFs/Controller/Accessors.antt =====
-- The small members of `Controller` in controller.cc: the range, the random page and the counters.
use snapshot_public.Prelude.{
  ℕ, ◌+◌, ◌*◌, ◌/◌, ◌%◌, ◌^◌, ◌<◌, ◌≡◌, Option, none, some, ◌==◌, if◌then◌else◌, arith,
}
use snapshot_public.CxlFs.Controller.{Controller}

-- `Controller::get_shm`
unfoldable pub get_shm : Controller → ℕ
get_shm c = c.shm_start

-- `Controller::get_shm_len`
unfoldable pub get_shm_len : Controller → ℕ
get_shm_len c = c.shm_pg_cnt * 2 ^ 12 % 2 ^ 64

-- `Controller::get_shm_end`
unfoldable pub get_shm_end : Controller → ℕ
unfolding get_shm_len
get_shm_end c = (c.shm_start + get_shm_len c) % 2 ^ 64

-- `fast_rand` from a seed: the number and the next seed.
unfoldable pub fast_rand : ℕ → ℕ × ℕ
fast_rand g_seed = let next = (214013 * g_seed + 2531011) % 2 ^ 32 in (next / 2 ^ 16 % 2 ^ 15, next)

-- `Controller::get_available_page` from a seed: the address and the next seed. `none` is the
-- trap of a remainder by zero.
unfoldable pub get_available_page : ℕ → Controller → Option (ℕ × ℕ)
unfolding fast_rand
get_available_page g_seed c =
    let (rand, next) = fast_rand g_seed in
    if c.shm_pg_cnt == 0
    then none
    else some ((c.shm_start + rand % c.shm_pg_cnt * 2 ^ 12) % 2 ^ 64, next)

-- `Controller::reset_stats`; of the counters the model has `faults`.
unfoldable pub reset_stats : Controller → Controller
reset_stats c = record c { faults = 0 }

-- A range as `init` leaves it, inside the address space.
pub record IsRange (c : Controller) : Type 0 where
  pub size : c.shm_size ≡ c.shm_pg_cnt * 4096
  pub room : c.shm_start + c.shm_pg_cnt * 4096 < 2 ^ 64

pub get_shm_end_lem : (c : Controller) → IsRange c → get_shm_end c ≡ c.shm_start + c.shm_size
unfolding get_shm_end
get_shm_end_lem c r = omega (arith, r.size, r.room)
