-- ===== src/StoreInst/Memory.antt =====
-- Byte memory: what libc's `memcpy` does to it, and little-endian fields of several bytes.
-- Addresses and sizes are `uint64_t`/`size_t`; sums and differences of them wrap at 2 ^ 64.
use native.Mathlib.Nat.{pow-suc}
use snapshot_public.Prelude.{
  ℕ, zero, suc, ◌+◌, ◌-◌, ◌*◌, ◌/◌, ◌%◌, ◌^◌, ◌≤◌, ◌<◌, ◌≡◌, fun_ext, refl, ◌&&◌, ◌⊎◌, arith, ltb,
  leb, ◌==◌, if◌then◌else◌,
}

abbrev pub Mem : Type 0
Mem = ℕ → ℕ

abbrev pub word : ℕ
word = 18446744073709551616

unfoldable pub add64 : ℕ → ℕ → ℕ
add64 a b = (a + b) % word

unfoldable pub sub64 : ℕ → ℕ → ℕ
sub64 a b = (a + word - b) % word

-- `memcpy(dst, src, n)` from the memory `from` into the memory `to`.
unfoldable pub memcpy : Mem → ℕ → Mem → ℕ → ℕ → Mem
memcpy to dst from src n x = if leb dst x && ltb x (dst + n) then from (src + (x - dst)) else to x

pub memcpy_inside :
    (to : Mem) (dst : ℕ) (from : Mem) (src n x : ℕ)
    → dst ≤ x
    → x < dst + n
    → memcpy to dst from src n x ≡ from (src + (x - dst))
unfolding memcpy
memcpy_inside to dst from src n x h k = ground arith

pub memcpy_outside :
    (to : Mem) (dst : ℕ) (from : Mem) (src n x : ℕ)
    → (x < dst) ⊎ (dst + n ≤ x)
    → memcpy to dst from src n x ≡ to x
unfolding memcpy
memcpy_outside to dst from src n x h = ground arith

-- A copy depends on the bytes that it reads alone.
pub memcpy_ext :
    (to : Mem) (dst : ℕ) (from from' : Mem) (src src' n : ℕ)
    → ((i : ℕ) → i < n → from (src + i) ≡ from' (src' + i))
    → memcpy to dst from src n ≡ memcpy to dst from' src' n
unfolding memcpy
memcpy_ext to dst from from' src src' n same = fun_ext (λ x. ground (arith, same (x - dst)))

-- A second copy to a place hides the first.
pub memcpy-memcpy :
    (to : Mem) (dst : ℕ) (from from' : Mem) (src src' n : ℕ)
    → memcpy (memcpy to dst from src n) dst from' src' n ≡ memcpy to dst from' src' n
unfolding memcpy
memcpy-memcpy to dst from from' src src' n = fun_ext (λ x. ground arith)

unfoldable pub poke : Mem → ℕ → ℕ → Mem
poke m o v x = if x == o then v else m x

poke_self : (m : Mem) (o v : ℕ) → poke m o v o ≡ v
unfolding poke
poke_self m o v = ground arith

-- `n` bytes at offset `o`, the lowest byte first.
unfoldable pub load_le : ℕ → Mem → ℕ → ℕ
load_le zero m o = 0
load_le (suc n) m o = m o + 256 * load_le n m (o + 1)

unfoldable pub store_le : ℕ → Mem → ℕ → ℕ → Mem
store_le zero m o v = m
store_le (suc n) m o v = poke (store_le n m (o + 1) (v / 256)) o (v % 256)

pub store_le_outside :
    (n : ℕ) (m : Mem) (o v x : ℕ) → (x < o) ⊎ (o + n ≤ x) → store_le n m o v x ≡ m x
unfolding store_le poke
store_le_outside zero m o v x h = refl
store_le_outside (suc n) m o v x h = ground (arith, store_le_outside n m (o + 1) (v / 256) x)

-- A load depends on the bytes of its field alone.
pub load_le_frame :
    (n : ℕ) (m m' : Mem) (o : ℕ)
    → ((x : ℕ) → o ≤ x → x < o + n → m' x ≡ m x)
    → load_le n m' o ≡ load_le n m o
unfolding load_le
load_le_frame zero m m' o same = refl
load_le_frame (suc n) m m' o same =
    ground
      (arith, same o, load_le_frame n m m' (o + 1) (λ x h k. same x (omega arith) (omega arith)))

load_le-poke : (n : ℕ) (m : Mem) (o v : ℕ) → load_le n (poke m o v) (o + 1) ≡ load_le n m (o + 1)
unfolding poke
load_le-poke n m o v = load_le_frame n m (poke m o v) (o + 1) (λ x h k. ground arith)

-- What is stored in a field is loaded from it, if it fits.
pub load_le-store_le :
    (n : ℕ) (m : Mem) (o v : ℕ) → v < 256 ^ n → load_le n (store_le n m o v) o ≡ v
unfolding load_le store_le
load_le-store_le zero m o v h = omega arith
load_le-store_le (suc n) m o v h =
    let below : v / 256 < 256 ^ n = omega (arith, pow-suc 256 n) in
    rw
      (
        load_le-poke n (store_le n m (o + 1) (v / 256)) o (v % 256),
        load_le-store_le n m (o + 1) (v / 256) below,
        poke_self,
      )
      (omega arith)

pub load_le_lt : (n : ℕ) (m : Mem) (o : ℕ) → ((x : ℕ) → m x < 256) → load_le n m o < 256 ^ n
unfolding load_le
load_le_lt zero m o h = omega arith
load_le_lt (suc n) m o h = omega (arith, h o, load_le_lt n m (o + 1) h, pow-suc 256 n)
