-- ===== src/CxlFs/Files/Regions.antt =====
-- `lseek`, `mmap` and `malloc`: the regions of the files.
use snapshot_public.Prelude.{
  ℕ, ◌+◌, ◌≤◌, ◌<◌, ◌≡◌, ◌≢◌, ◌⊎◌, refl, sym, ◌∙◌, inl, inr, true, Option, some, ◌==◌, ltb,
  Bool-cases, arith,
}
use snapshot_public.StoreInst.Memory.{word}
use snapshot_public.CxlFs.Files.{FdDesc, Table, find_fd, put_desc, grow, lseek, seek_set, ok}

-- An allocator whose regions lie behind `top`, which moves up.
pub record Allocator (A : Type 0) : Type 1 where
  pub allocate : ℕ → A → Option (ℕ × A)
  pub top : A → ℕ
  pub Fits : ℕ → A → Type 0
  pub fresh :
      (bytes : ℕ) (a a' : A) (region : ℕ)
      → Fits bytes a
      → allocate bytes a ≡ some (region, a')
      → (top a ≤ region) × (region + bytes ≤ top a') × (top a' < word)

-- The files' regions lie below `top` and apart from each other.
pub record IsApart (t : Table) (top : ℕ) : Type 0 where
  pub inside :
      (fd : ℕ) (d : FdDesc)
      → find_fd t.fd_desc fd ≡ some d
      → (d.va_alloc_off ≡ 0) × ((0 < d.len) → (d.region + d.len ≤ top))
  pub apart :
      (fd fd' : ℕ) (d d' : FdDesc)
      → find_fd t.fd_desc fd ≡ some d
      → find_fd t.fd_desc fd' ≡ some d'
      → fd ≢ fd'
      → 0 < d.len
      → 0 < d'.len
      → (d.region + d.len ≤ d'.region) ⊎ (d'.region + d'.len ≤ d.region)

pub some-inj {ℓ} : {A : Type ℓ} {a b : A} → some a ≡ some b → a ≡ b
some-inj h = cc

put_desc_cases :
    (t : Table) (fd fd' : ℕ) (d d' : FdDesc)
    → find_fd (put_desc t fd d).fd_desc fd' ≡ some d'
    → ((fd ≡ fd') × (d' ≡ d)) ⊎ (find_fd t.fd_desc fd' ≡ some d')
unfolding put_desc find_fd
put_desc_cases t fd fd' d d' e = elim (Bool-cases (fd == fd')) [
  | inl same ↦ inl (ground arith, sym (some-inj (rw same at e)))
  | inr other ↦ inr (rw other at e)
]

put_desc-IsApart :
    (t : Table) (fd : ℕ) (d : FdDesc) (top top' : ℕ)
    → IsApart t top
    → top ≤ d.region
    → d.region + d.len ≤ top'
    → d.va_alloc_off ≡ 0
    → IsApart (put_desc t fd d) top'
put_desc-IsApart t fd d top top' w lo hi off = record {
  inside = λ fd1 d1 e1. elim (put_desc_cases t fd fd1 d d1 e1) [
    | inl (same, e) ↦ rw e (off, λ h. hi)
    | inr old ↦ let i = w.inside fd1 d1 old in (i.0, λ h. (let j = i.1 h in omega arith))
  ];
  apart = λ fd1 fd2 d1 d2 e1 e2 ne h1 h2. elim (put_desc_cases t fd fd1 d d1 e1) [
    | inl (same1, e) ↦ elim (put_desc_cases t fd fd2 d d2 e2) [
      | inl (same2, e') ↦ absurd (ne (sym same1 ∙ same2))
      | inr old2 ↦ let j = (w.inside fd2 d2 old2).1 h2 in rw e (inr (omega arith))
    ]
    | inr old1 ↦ elim (put_desc_cases t fd fd2 d d2 e2) [
      | inl (same2, e') ↦ let j = (w.inside fd1 d1 old1).1 h1 in rw e' (inl (omega arith))
      | inr old2 ↦ w.apart fd1 fd2 d1 d2 old1 old2 ne h1 h2
    ]
  ];
}

module _ {A : Type 0} (al : Allocator A) where
  -- Seeking in a new file makes it as long as the offset: the call returns the offset, the file has
  -- a region of that length, the regions of all files stay apart, and no other file has changed.
  -- The allocator has the memory, and the offset is not 0.
  pub lseek_allocates :
      (t : Table) (a a' : A) (fd offset region : ℕ) (d : FdDesc)
      → IsApart t (al.top a)
      → find_fd t.fd_desc fd ≡ some d
      → d.len ≡ 0
      → 0 < offset
      → al.Fits offset a
      → al.allocate offset a ≡ some (region, a')
      → (t' : Table) × (lseek al.allocate fd offset seek_set t a ≡ some (ok offset, t', a'))
        × IsApart t' (al.top a')
        × ((d' : FdDesc) × (find_fd t'.fd_desc fd ≡ some d')
            × (d'.len ≡ offset)
            × (d'.region ≡ region)
            × (d'.seek ≡ offset))
        × ((fd' : ℕ) → fd ≢ fd' → find_fd t'.fd_desc fd' ≡ find_fd t.fd_desc fd')
  unfolding lseek grow
  lseek_allocates t a a' fd offset region d w found new pos fits gets =
      let d' = record d { seek = offset; len = offset; region = region } in
      let (lo, hi, room) = al.fresh offset a a' region fits gets in
      let longer : ltb d.len offset ≡ true = ground arith in
      let is_new : (d.len == 0) ≡ true = ground arith in
      (
        put_desc t fd d',
        rw (lseek, found) (simp (is_new, longer, gets)),
        put_desc-IsApart t fd d' (al.top a) (al.top a') w lo hi (w.inside fd d found).0,
        (d', (unfold put_desc find_fd in ground arith), refl, refl, refl),
        λ fd' ne. unfold put_desc find_fd in ground (arith, ne),
      )
