-- ===== src/Prelude/Lists.antt =====
-- Lists measured and indexed by native numbers, and predicates on the members of a list.
use Prim.Native.Nat.{ℕ, zero, suc, ◌+◌, ◌≤◌, ◌<◌}
use mathlib.Core.Path.{◌≡◌, refl, sym, ap, subst}
use mathlib.Core.Logic.{◌≢◌, ◌⊎◌, inl, inr}
use mathlib.Core.List.{List, [], ◌∷◌, ◌++◌}
use mathlib.Core.Option.{Option, none, some}
use native.Mathlib.Omega.{arith}

module _ {ℓ} {A : Type ℓ} where
  abbrev pub length : List A → ℕ
  length [] = 0
  length (x ∷ xs) = suc (length xs)

  abbrev pub get_elem? : List A → ℕ → Option A
  get_elem? [] i = none
  get_elem? (x ∷ xs) zero = some x
  get_elem? (x ∷ xs) (suc i) = get_elem? xs i

  -- A write out of bounds changes nothing.
  abbrev pub set : List A → ℕ → A → List A
  set [] i v = []
  set (x ∷ xs) zero v = v ∷ xs
  set (x ∷ xs) (suc i) v = x ∷ set xs i v

  abbrev pub take : ℕ → List A → List A
  take zero xs = []
  take (suc n) [] = []
  take (suc n) (x ∷ xs) = x ∷ take n xs

  pub append_assoc : (xs ys zs : List A) → (xs ++ ys) ++ zs ≡ xs ++ (ys ++ zs)
  append_assoc [] ys zs = refl
  append_assoc (x ∷ xs) ys zs = ap (λ t. x ∷ t) (append_assoc xs ys zs)

  pub append_nil : (xs : List A) → xs ++ [] ≡ xs
  append_nil [] = refl
  append_nil (x ∷ xs) = ap (λ t. x ∷ t) (append_nil xs)

  pub length-append : (xs ys : List A) → length (xs ++ ys) ≡ length xs + length ys
  length-append [] ys = omega arith
  length-append (x ∷ xs) ys = omega (arith, length-append xs ys)

module _ {ℓ} {A : Type ℓ} (P : A → Type 0) where
  -- Every member satisfies `P`.
  abbrev pub All : List A → Type 0
  All [] = Unit
  All (x ∷ xs) = P x × All xs

  -- Some member satisfies `P`, at a known place.
  abbrev pub Any : List A → Type 0
  Any [] = ⊥
  Any (x ∷ xs) = P x ⊎ Any xs

module _ {ℓ} {A : Type ℓ} (P : A → Type 0) where
  pub Any-set_self :
      (ls : List A) (i : ℕ) (l l' : A) → get_elem? ls i ≡ some l → P l' → Any P (set ls i l')
  Any-set_self [] i l l' e h = cc
  Any-set_self (x ∷ xs) zero l l' e h = inl h
  Any-set_self (x ∷ xs) (suc i) l l' e h = inr (Any-set_self xs i l l' e h)

  pub Any-set_keeps :
      (ls : List A) (i : ℕ) (l l' : A)
      → get_elem? ls i ≡ some l
      → (P l → P l')
      → Any P ls
      → Any P (set ls i l')
  Any-set_keeps [] i l l' e h w = w
  Any-set_keeps (x ∷ xs) zero l l' e h (inl w) = inl (h (let same : x ≡ l = cc in subst P same w))
  Any-set_keeps (x ∷ xs) zero l l' e h (inr w) = inr w
  Any-set_keeps (x ∷ xs) (suc i) l l' e h (inl w) = inl w
  Any-set_keeps (x ∷ xs) (suc i) l l' e h (inr w) = inr (Any-set_keeps xs i l l' e h w)

  pub All-set :
      (ls : List A) (i : ℕ) (l l' : A)
      → get_elem? ls i ≡ some l
      → (P l → P l')
      → All P ls
      → All P (set ls i l')
  All-set [] i l l' e h w = w
  All-set (x ∷ xs) zero l l' e h w = (h (let same : x ≡ l = cc in subst P same w.0), w.1)
  All-set (x ∷ xs) (suc i) l l' e h w = (w.0, All-set xs i l l' e h w.1)

  pub Any-append_left : (xs ys : List A) → Any P xs → Any P (xs ++ ys)
  Any-append_left [] ys w = absurd w
  Any-append_left (x ∷ xs) ys (inl w) = inl w
  Any-append_left (x ∷ xs) ys (inr w) = inr (Any-append_left xs ys w)

  pub Any-append_last : (xs : List A) (y : A) → P y → Any P (xs ++ y ∷ [])
  Any-append_last [] y h = inl h
  Any-append_last (x ∷ xs) y h = inr (Any-append_last xs y h)

  pub All-append_last : (xs : List A) (y : A) → All P xs → P y → All P (xs ++ y ∷ [])
  All-append_last [] y a h = (h, tt)
  All-append_last (x ∷ xs) y a h = (a.0, All-append_last xs y a.1 h)

module _ {ℓ} {A : Type ℓ} where
  pub get_elem?-some : (ls : List A) (i : ℕ) → i < length ls → (l : A) × (get_elem? ls i ≡ some l)
  get_elem?-some [] i h = elim h [ ]
  get_elem?-some (x ∷ xs) zero h = (x, refl)
  get_elem?-some (x ∷ xs) (suc i) h = get_elem?-some xs i (omega arith)

  pub length-set : (ls : List A) (i : ℕ) (l : A) → length (set ls i l) ≡ length ls
  length-set [] i l = refl
  length-set (x ∷ xs) zero l = refl
  length-set (x ∷ xs) (suc i) l = ap suc (length-set xs i l)

  pub Any-map :
      (P Q R : A → Type 0) (xs : List A)
      → ((a : A) → P a → Q a → R a)
      → All P xs
      → Any Q xs
      → Any R xs
  Any-map P Q R [] f a w = absurd w
  Any-map P Q R (x ∷ xs) f a (inl w) = inl (f x a.0 w)
  Any-map P Q R (x ∷ xs) f a (inr w) = inr (Any-map P Q R xs f a.1 w)

  pub get_elem?-set_self :
      (ls : List A) (i : ℕ) (l l' : A)
      → get_elem? ls i ≡ some l
      → get_elem? (set ls i l') i ≡ some l'
  get_elem?-set_self [] i l l' e = cc
  get_elem?-set_self (x ∷ xs) zero l l' e = refl
  get_elem?-set_self (x ∷ xs) (suc i) l l' e = get_elem?-set_self xs i l l' e

  pub get_elem?-set_ne :
      (ls : List A) (i j : ℕ) (l : A) → i ≢ j → get_elem? (set ls i l) j ≡ get_elem? ls j
  get_elem?-set_ne [] i j l ne = refl
  get_elem?-set_ne (x ∷ xs) zero zero l ne = absurd (ne refl)
  get_elem?-set_ne (x ∷ xs) zero (suc j) l ne = refl
  get_elem?-set_ne (x ∷ xs) (suc i) zero l ne = refl
  get_elem?-set_ne (x ∷ xs) (suc i) (suc j) l ne = get_elem?-set_ne xs i j l (λ e. ne (ap suc e))

  pub set-get : (ls : List A) (i : ℕ) (l : A) → get_elem? ls i ≡ some l → set ls i l ≡ ls
  set-get [] i l e = refl
  set-get (x ∷ xs) zero l e = let same : x ≡ l = cc in ap (λ t. t ∷ xs) (sym same)
  set-get (x ∷ xs) (suc i) l e = ap (λ t. x ∷ t) (set-get xs i l e)

  pub set-set : (ls : List A) (i : ℕ) (l l' : A) → set (set ls i l) i l' ≡ set ls i l'
  set-set [] i l l' = refl
  set-set (x ∷ xs) zero l l' = refl
  set-set (x ∷ xs) (suc i) l l' = ap (λ t. x ∷ t) (set-set xs i l l')

module _ {ℓ} {A : Type ℓ} (P : A → Type 0) where
  pub All-set_any : (ls : List A) (i : ℕ) (l : A) → All P ls → P l → All P (set ls i l)
  All-set_any [] i l a h = a
  All-set_any (x ∷ xs) zero l a h = (h, a.1)
  All-set_any (x ∷ xs) (suc i) l a h = (a.0, All-set_any xs i l a.1 h)

  pub All-get : (ls : List A) (i : ℕ) (l : A) → All P ls → get_elem? ls i ≡ some l → P l
  All-get [] i l a e = absurd (cc (e))
  All-get (x ∷ xs) zero l a e = let same : x ≡ l = cc in subst P same a.0
  All-get (x ∷ xs) (suc i) l a e = All-get xs i l a.1 e

module _ {ℓ} {A : Type ℓ} where
  pub get_elem?-take :
      (n : ℕ) (xs : List A) (i : ℕ) → i < n → get_elem? (take n xs) i ≡ get_elem? xs i
  get_elem?-take zero xs i h = absurd (omega arith)
  get_elem?-take (suc n) [] i h = refl
  get_elem?-take (suc n) (x ∷ xs) zero h = refl
  get_elem?-take (suc n) (x ∷ xs) (suc i) h = get_elem?-take n xs i (omega arith)

  pub take_all : (xs : List A) → take (length xs) xs ≡ xs
  take_all [] = refl
  take_all (x ∷ xs) = ap (λ t. x ∷ t) (take_all xs)

  pub length-take : (n : ℕ) (xs : List A) → n ≤ length xs → length (take n xs) ≡ n
  length-take zero xs h = refl
  length-take (suc n) [] h = absurd (omega arith)
  length-take (suc n) (x ∷ xs) h = ap suc (length-take n xs (omega arith))

  pub get_elem?-append :
      (xs ys : List A) (i : ℕ) → i < length xs → get_elem? (xs ++ ys) i ≡ get_elem? xs i
  get_elem?-append [] ys i h = absurd (omega arith)
  get_elem?-append (x ∷ xs) ys zero h = refl
  get_elem?-append (x ∷ xs) ys (suc i) h = get_elem?-append xs ys i (omega arith)

  pub get_elem?-last : (xs : List A) (y : A) → get_elem? (xs ++ y ∷ []) (length xs) ≡ some y
  get_elem?-last [] y = refl
  get_elem?-last (x ∷ xs) y = get_elem?-last xs y
