-- ===== src/StoreInst/Align.antt =====
-- libc_wrappers.cc: `previousPowerOfTwo`, and the alignment of a streaming write in `snapshot`
-- (CXLBUF_ALIGN_SNAPSHOT_WRITES, the default of make.config).
use native.Mathlib.Nat.{one-le-pow, pow-le-pow_right, div-mul-le_self, lt-div-mul-add}
use snapshot_public.Prelude.{
  ℕ, zero, suc, ◌+◌, ◌-◌, ◌*◌, ◌/◌, ◌%◌, ◌^◌, ◌≤◌, ◌<◌, ◌≡◌, inl, inr, arith, ltb, leb, ◌==◌,
  if◌then◌else◌, Bool-cases, leb→le,
}

-- `__builtin_clzl` of a non-zero word of `width` bits: the leading zeros above its highest one.
unfoldable pub clz : ℕ → ℕ → ℕ
clz zero x = 0
clz (suc width) x = let rest = clz width x in if leb (2 ^ width) x then 0 else suc rest

unfoldable pub previous_power_of_two : ℕ → ℕ
previous_power_of_two x = 63 - clz 64 x

-- `std::popcount`
unfoldable pub popcount : ℕ → ℕ → ℕ
popcount zero x = 0
popcount (suc width) x = x % 2 + popcount width (x / 2)

-- `align_to`: the log2 of the alignment, at most 9.
unfoldable pub align_to : ℕ → ℕ
align_to bytes =
    let prev_pwr_2 = previous_power_of_two bytes + 1 in
    let capped = if ltb 9 prev_pwr_2 then 9 else prev_pwr_2 in
    if popcount 64 bytes == 1 then capped - 1 else capped

-- `dst_addr_aligned`: `dst_addr` with its low bits shifted out, unless it is aligned already.
-- `dst_addr & ((1 << align_to) - 1)` is a remainder.
unfoldable pub align_dst : ℕ → ℕ → ℕ
align_dst dst_addr to =
    let modulo = dst_addr % 2 ^ to in if modulo == 0 then dst_addr else dst_addr / 2 ^ to * 2 ^ to

-- `new_sz`
unfoldable pub new_size : ℕ → ℕ → ℕ → ℕ
new_size dst_addr bytes to =
    let dst_addr_aligned = align_dst dst_addr to in
    let new_sz_pfx_al = bytes + (dst_addr - dst_addr_aligned) in
    let new_sz_sfx_al =
      if leb bytes (2 ^ to)
      then 2 ^ to
      else (bytes / 256 + (if bytes % 256 == 0 then 0 else 1)) * 256 in
    if dst_addr == dst_addr_aligned then new_sz_sfx_al else new_sz_pfx_al

align_to-le : (bytes : ℕ) → align_to bytes ≤ 9
unfolding align_to
align_to-le bytes = ground arith

pow_bounds : (to : ℕ) → to ≤ 9 → (0 < 2 ^ to) × (2 ^ to ≤ 512)
pow_bounds to h = (one-le-pow to 2 (omega arith), pow-le-pow_right (omega arith) h)

-- Aligning moves the destination down by less than the alignment.
align_dst_bounds :
    (dst_addr to : ℕ)
    → to ≤ 9
    → (align_dst dst_addr to ≤ dst_addr) × (dst_addr < align_dst dst_addr to + 512)
unfolding align_dst
align_dst_bounds dst_addr to h = ground (
  arith,
  pow_bounds to h,
  div-mul-le_self dst_addr (2 ^ to),
  lt-div-mul-add {a = dst_addr} (pow_bounds to h).0,
)

-- The widened write of `snapshot`: it begins at most 511 bytes before the destination, covers the
-- whole entry, and ends at most 512 bytes behind it.
pub aligned_write_covers :
    (dst_addr bytes : ℕ)
    → let to = align_to bytes in
      let from = align_dst dst_addr to in
      let end = from + new_size dst_addr bytes to in
      (from ≤ dst_addr)
      × (dst_addr < from + 512)
      × (dst_addr + bytes ≤ end)
      × (end ≤ dst_addr + bytes + 512)
aligned_write_covers dst_addr bytes = covers dst_addr bytes (align_to bytes) (align_to-le bytes)
  where
    covers :
        (dst_addr bytes to : ℕ)
        → to ≤ 9
        → (align_dst dst_addr to ≤ dst_addr)
          × (dst_addr < align_dst dst_addr to + 512)
          × (dst_addr + bytes ≤ align_dst dst_addr to + new_size dst_addr bytes to)
          × (align_dst dst_addr to + new_size dst_addr bytes to ≤ dst_addr + bytes + 512)
    covers dst_addr bytes to h =
        unfold new_size in ground (arith, align_dst_bounds dst_addr to h, pow_bounds to h)

clz-lt : (width x : ℕ) → 0 < x → x < 2 ^ width → clz width x < width
unfolding clz
clz-lt zero x h k = absurd (omega arith)
clz-lt (suc width) x h k = ground (arith, clz-lt width x h)

-- Where the leading zeros end, the highest bit stands.
clz_bounds :
    (width x p : ℕ)
    → 0 < x
    → x < 2 ^ width
    → p + 1 + clz width x ≡ width
    → (2 ^ p ≤ x) × (x < 2 ^ (p + 1))
unfolding clz
clz_bounds zero x p h k e = absurd (omega arith)
clz_bounds (suc width) x p h k e = elim (Bool-cases (leb (2 ^ width) x)) [
  | inl top ↦
      let q : p ≡ width = ground arith in
      let q' : p + 1 ≡ suc width = omega arith in rw (q', q) (leb→le _ _ top, k)
  | inr low ↦ clz_bounds width x p h (ground arith) (ground arith)
]

-- `previousPowerOfTwo` is the floor of the logarithm of a non-zero word.
pub previous_power_of_two_bounds :
    (x : ℕ)
    → 0 < x
    → x < 2 ^ 64
    → (2 ^ previous_power_of_two x ≤ x) × (x < 2 ^ (previous_power_of_two x + 1))
unfolding previous_power_of_two
previous_power_of_two_bounds x h k =
    clz_bounds 64 x (63 - clz 64 x) h k (omega (arith, clz-lt 64 x h k))
