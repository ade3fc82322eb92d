-- ===== src/Examples/Stores.antt =====
-- The memory of the examples, which live in a mapped file. An address is a number and 0 the null
-- pointer; a store lists the allocated objects of one type, the last write to an object first.
use snapshot_public.Prelude.{
  ℕ, ◌≡◌, ◌≢◌, refl, Option, none, some, List, [], ◌∷◌, ◌==◌, if◌then◌else◌, arith,
}

abbrev pub Store {ℓ} : Type ℓ → Type ℓ
Store A = List (ℕ × A)

module _ {ℓ} {A : Type ℓ} where
  -- A read; `none` is an object that is not allocated.
  unfoldable pub load : Store A → ℕ → Option A
  load [] p = none
  load ((a, n) ∷ h) p = let rest = load h p in if p == a then some n else rest

  -- `deallocate`
  unfoldable pub release : Store A → ℕ → Store A
  release [] p = []
  release ((a, n) ∷ h) p = let rest = release h p in if p == a then rest else (a, n) ∷ rest

  pub load_new : (h : Store A) (a : ℕ) (n : A) → load ((a, n) ∷ h) a ≡ some n
  unfolding load
  load_new h a n = ground arith

  pub load_old : (h : Store A) (a p : ℕ) (n : A) → p ≢ a → load ((a, n) ∷ h) p ≡ load h p
  unfolding load
  load_old h a p n ne = ground arith

  pub load-release : (h : Store A) (a p : ℕ) → p ≢ a → load (release h a) p ≡ load h p
  unfolding load release
  load-release [] a p ne = refl
  load-release ((b, n) ∷ h) a p ne = ground (arith, load-release h a p ne)
