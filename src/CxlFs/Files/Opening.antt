-- ===== src/CxlFs/Files/Opening.antt =====
-- `open` and `get_free_fd` of libcxlfs.cc: file names and their descriptors.
use snapshot_public.Prelude.{
  ℕ, suc, zero, ◌+◌, ◌≤◌, ◌<◌, ◌≡◌, refl, inl, inr, true, false, Option, none, some, List, [], ◌∷◌,
  leb, if◌then◌else◌, length, Bool-cases, Option-cases, arith,
}
use snapshot_public.CxlFs.Files.{
  Pathname, same_pathname, Table, find_fd, find_path, is_some, next_free, get_free_fd, create_fd,
  open_pathname, fd_exists,
}

same_pathname_refl : (xs : Pathname) → same_pathname xs xs ≡ true
unfolding same_pathname
same_pathname_refl [] = refl
same_pathname_refl (x ∷ xs) = ground (arith, same_pathname_refl xs)

same_pathname_lem : (xs ys : Pathname) → same_pathname xs ys ≡ true → xs ≡ ys
unfolding same_pathname
same_pathname_lem [] [] h = refl
same_pathname_lem [] (y ∷ ys) h = cc
same_pathname_lem (x ∷ xs) [] h = cc
same_pathname_lem (x ∷ xs) (y ∷ ys) h = ground (arith, same_pathname_lem xs ys)

-- How many keys are at least `k`.
keys_from {ℓ} : {A : Type ℓ} → List (ℕ × A) → ℕ → ℕ
keys_from [] k = 0
keys_from ((key, v) ∷ m) k = let n = keys_from m k in if leb k key then n + 1 else n

keys_from-le {ℓ} : {A : Type ℓ} (m : List (ℕ × A)) (k : ℕ) → keys_from m k ≤ length m
unfolding keys_from
keys_from-le [] k = omega arith
keys_from-le ((key, v) ∷ m) k = ground (arith, keys_from-le m k)

keys_from-suc {ℓ} : {A : Type ℓ} (m : List (ℕ × A)) (k : ℕ) → keys_from m (k + 1) ≤ keys_from m k
unfolding keys_from
keys_from-suc [] k = omega arith
keys_from-suc ((key, v) ∷ m) k = ground (arith, keys_from-suc m k)

-- A key that is taken counts for itself but not for the next.
keys_from-taken {ℓ} :
    {A : Type ℓ} (m : List (ℕ × A)) (k : ℕ)
    → is_some (find_fd m k) ≡ true
    → keys_from m (k + 1) < keys_from m k
unfolding keys_from find_fd is_some
keys_from-taken [] k h = cc
keys_from-taken ((key, v) ∷ m) k h = ground (arith, keys_from-taken m k, keys_from-suc m k)

is_some-false {ℓ} : {A : Type ℓ} (o : Option A) → is_some o ≡ false → o ≡ none
unfolding is_some
is_some-false none h = refl
is_some-false (some a) h = cc

next_free-free :
    (rounds : ℕ) (m : List (ℕ × Pathname)) (k : ℕ)
    → keys_from m k < rounds
    → (find_fd m (next_free rounds m k) ≡ none) × (k ≤ next_free rounds m k)
unfolding next_free
next_free-free zero m k h = absurd (omega arith)
next_free-free (suc rounds) m k h = elim (Bool-cases (is_some (find_fd m k))) [
  | inl taken ↦
      let less = keys_from-taken m k taken in
      let r = next_free-free rounds m (k + 1) (omega arith) in
      rw taken (r.0, (let n = r.1 in omega arith))
  | inr free ↦ rw free (is_some-false (find_fd m k) free, omega arith)
]

-- `get_free_fd` ends: it returns a positive descriptor that no file has.
pub get_free_fd_free :
    (t : Table) → (find_fd t.fd_to_path (get_free_fd t) ≡ none) × (0 < get_free_fd t)
unfolding get_free_fd
get_free_fd_free t =
    let le = keys_from-le t.fd_to_path 1 in
    let r = next_free-free (length t.fd_to_path + 1) t.fd_to_path 1 (omega arith) in
    (r.0, (let n = r.1 in omega arith))

-- The maps between names and descriptors are inverse, and every open file has an entry.
pub record IsTable (t : Table) : Type 0 where
  pub named :
      (p : Pathname) (fd : ℕ)
      → find_path t.path_to_fd p ≡ some fd
      → find_fd t.fd_to_path fd ≡ some p
  pub numbered :
      (p : Pathname) (fd : ℕ)
      → find_fd t.fd_to_path fd ≡ some p
      → find_path t.path_to_fd p ≡ some fd
  pub described : (p : Pathname) (fd : ℕ) → find_fd t.fd_to_path fd ≡ some p → fd_exists t fd ≡ true

-- What it means for `fd` to be the descriptor of a file.
abbrev pub IsOpen : Table → Pathname → ℕ → Type 0
IsOpen t p fd =
    (find_path t.path_to_fd p ≡ some fd)
    × (find_fd t.fd_to_path fd ≡ some p)
    × (fd_exists t fd ≡ true)

create_fd-IsTable :
    (t : Table) (p : Pathname)
    → IsTable t
    → find_path t.path_to_fd p ≡ none
    → IsTable (create_fd t p).1
unfolding create_fd find_path find_fd fd_exists is_some
create_fd-IsTable t p w h =
    let free = get_free_fd_free t in
    record {
      named = λ q fd e. ground (arith, same_pathname_lem p q, w.named q fd, free.0);
      numbered =
          λ q fd e. ground (arith, same_pathname_lem p q, same_pathname_refl p, w.numbered q fd, h);
      described = λ q fd e. ground (arith, w.described q fd);
    }

create_fd-IsOpen : (t : Table) (p : Pathname) → IsOpen (create_fd t p).1 p (create_fd t p).0
unfolding create_fd find_path find_fd fd_exists is_some
create_fd-IsOpen t p = ground (arith, same_pathname_refl p)

create_fd-keeps :
    (t : Table) (p q : Pathname) (fd : ℕ)
    → IsTable t
    → find_path t.path_to_fd p ≡ none
    → find_path t.path_to_fd q ≡ some fd
    → find_path (create_fd t p).1.path_to_fd q ≡ some fd
unfolding create_fd find_path
create_fd-keeps t p q fd w h e = ground (arith, same_pathname_lem p q)

open_pathname-found :
    (t : Table) (p : Pathname) (fd : ℕ)
    → find_path t.path_to_fd p ≡ some fd
    → open_pathname t p ≡ (fd, t)
unfolding open_pathname
open_pathname-found t p fd e = rw (open_pathname, e) refl

open_pathname-absent :
    (t : Table) (p : Pathname) → find_path t.path_to_fd p ≡ none → open_pathname t p ≡ create_fd t p
unfolding open_pathname
open_pathname-absent t p e = rw (open_pathname, e) refl

-- Opening a file, whether it was open or not, returns a descriptor which is that file's and no
-- other's: the maps between names and descriptors stay inverse, every file that was open keeps its
-- descriptor, and opening the file again gives the same descriptor and changes nothing.
pub open_pathname_opens :
    (t : Table) (p : Pathname)
    → IsTable t
    → IsTable (open_pathname t p).1
      × IsOpen (open_pathname t p).1 p (open_pathname t p).0
      × ((q : Pathname) (fd : ℕ)
          → find_path t.path_to_fd q ≡ some fd
          → find_path (open_pathname t p).1.path_to_fd q ≡ some fd)
      × (open_pathname (open_pathname t p).1 p ≡ open_pathname t p)
open_pathname_opens t p w = elim (Option-cases (find_path t.path_to_fd p)) [
  | inr (fd, e) ↦
      let number = w.named p fd e in
      rw (open_pathname-found t p fd e)
        (w, (e, number, w.described p fd number), (λ q fd' h. h), open_pathname-found t p fd e)
  | inl absent ↦
      let is_open = create_fd-IsOpen t p in
      rw (open_pathname-absent t p absent) (
        create_fd-IsTable t p w absent,
        is_open,
        (λ q fd h. create_fd-keeps t p q fd w absent h),
        open_pathname-found (create_fd t p).1 p (create_fd t p).0 is_open.0,
      )
]
