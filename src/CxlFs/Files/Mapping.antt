-- ===== src/CxlFs/Files/Mapping.antt =====
-- `mmap` of libcxlfs: which addresses it grants.
use snapshot_public.Prelude.{
  ℕ, ◌+◌, ◌≤◌, ◌<◌, ◌≡◌, ◌≢◌, ◌⊎◌, inl, inr, false, ◌||◌, some, ltb, Bool-cases, Option-cases,
  arith,
}
use snapshot_public.StoreInst.Memory.{word, add64}
use snapshot_public.CxlFs.Files.{
  FdDesc, Errno, Table, find_fd, mmap, map_desc, has_flag, map_fixed, map_fixed_noreplace,
  map_private, map_anonymous, ok, error, ebadf, enotsup, einval,
}
use snapshot_public.CxlFs.Files.Regions.{IsApart}

error-ok : (e : Errno) (p : ℕ) → error e ≢ ok p
error-ok e p h = cc

ok-inj : (a b : ℕ) → ok a ≡ ok b → a ≡ b
ok-inj a b h = cc

map_desc_lem :
    (d : FdDesc) (length flags offset p : ℕ)
    → map_desc d length flags offset ≡ ok p
    → (add64 d.region d.va_alloc_off ≡ p)
      × (add64 length offset ≤ d.len)
      × ((has_flag flags map_fixed || has_flag flags map_fixed_noreplace) ≡ false)
      × ((has_flag flags map_private || has_flag flags map_anonymous) ≡ false)
unfolding map_desc
map_desc_lem d length flags offset p h =
    elim (Bool-cases (has_flag flags map_fixed || has_flag flags map_fixed_noreplace)) [
      | inl a ↦ absurd (error-ok enotsup p (rw a at h))
      | inr a ↦ elim (Bool-cases (has_flag flags map_private || has_flag flags map_anonymous)) [
        | inl b ↦ absurd (error-ok enotsup p (rw (a, b) at h))
        | inr b ↦ elim (Bool-cases (ltb d.len (add64 length offset))) [
          | inl c ↦ absurd (error-ok einval p (rw (a, b, c) at h))
          | inr c ↦ (ok-inj _ _ (rw (a, b, c) at h), ground arith, a, b)
        ]
      ]
    ]

add64-small : (a b : ℕ) → a + b < word → add64 a b ≡ a + b
unfolding add64
add64-small a b h = omega arith

map_desc-start :
    (d : FdDesc) (length flags p : ℕ)
    → length ≤ d.len
    → length < word
    → (has_flag flags map_fixed || has_flag flags map_fixed_noreplace) ≡ false
    → (has_flag flags map_private || has_flag flags map_anonymous) ≡ false
    → add64 d.region d.va_alloc_off ≡ p
    → map_desc d length flags 0 ≡ ok p
unfolding map_desc
map_desc-start d length flags p le fits fixed private e =
    let long : ltb d.len (add64 length 0) ≡ false =
      rw (add64-small length 0 (omega arith)) (ground arith) in
    simp (fixed, private, long, e)

record Granted (t : Table) (top length flags fd offset p : ℕ) : Type 0 where
  desc : FdDesc
  found : find_fd t.fd_desc fd ≡ some desc
  start : p ≡ desc.region
  short : length ≤ desc.len
  same_start : mmap t length flags fd 0 ≡ ok p

granted :
    (t : Table) (top length flags fd offset p : ℕ)
    → IsApart t top
    → top < word
    → length + offset < word
    → 0 < length
    → mmap t length flags fd offset ≡ ok p
    → Granted t top length flags fd offset p
unfolding mmap
granted t top length flags fd offset p w room fits pos h =
    elim (Option-cases (find_fd t.fd_desc fd)) [
      | inl absent ↦ absurd (error-ok ebadf p (rw (mmap, absent) at h))
      | inr (d, there) ↦
          let h' : map_desc d length flags offset ≡ ok p = rw (mmap, there) at h in
          let (e, le, fixed, private) = map_desc_lem d length flags offset p h' in
          let (off, low) = w.inside fd d there in
          let short : length + offset ≤ d.len = omega (arith, add64-small length offset fits) in
          let low' = low (omega arith) in
          let start : p ≡ d.region =
            omega (arith, add64-small d.region d.va_alloc_off (omega arith)) in
          record {
            desc = d;
            found = there;
            start = start;
            short = omega arith;
            same_start =
                rw (mmap, there)
                  (map_desc-start d length flags p (omega arith) (omega arith) fixed private e);
          }
    ]

-- Mappings of two files do not overlap: where the files' regions are apart and nothing wraps, two
-- mappings of a positive length that `mmap` grants on different descriptors are ranges without a
-- common address.
pub mmap_apart :
    (t : Table) (top length length' flags flags' fd fd' offset offset' p p' : ℕ)
    → IsApart t top
    → top < word
    → fd ≢ fd'
    → 0 < length
    → length + offset < word
    → mmap t length flags fd offset ≡ ok p
    → 0 < length'
    → length' + offset' < word
    → mmap t length' flags' fd' offset' ≡ ok p'
    → (p + length ≤ p') ⊎ (p' + length' ≤ p)
mmap_apart t top length length' flags flags' fd fd' offset offset' p p' w room ne pos fits h pos'
      fits' h' =
    let g = granted t top length flags fd offset p w room fits pos h in
    let g' = granted t top length' flags' fd' offset' p' w room fits' pos' h' in
    let s = g.start in
    let n = g.short in
    let s' = g'.start in
    let n' = g'.short in
    elim (w.apart fd fd' g.desc g'.desc g.found g'.found ne (omega arith) (omega arith)) [
      | inl below ↦ inl (omega arith)
      | inr above ↦ inr (omega arith)
    ]

-- `mmap` ignores the offset in the file: a mapping of a positive length that is granted at one
-- offset is granted at offset 0 too, and at the same address. Nothing wraps, and the files' regions
-- are apart.
pub mmap_ignores_offset :
    (t : Table) (top length flags fd offset p : ℕ)
    → IsApart t top
    → top < word
    → 0 < length
    → length + offset < word
    → mmap t length flags fd offset ≡ ok p
    → mmap t length flags fd 0 ≡ ok p
mmap_ignores_offset t top length flags fd offset p w room pos fits h =
    (granted t top length flags fd offset p w room fits pos h).same_start
