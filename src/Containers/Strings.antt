-- ===== src/Containers/Strings.antt =====
-- string.hh: `libpuddles::obj::string`. A `std::string` is the list of its characters.
use snapshot_public.Prelude.{
  ℕ, ◌+◌, ◌≤◌, ◌<◌, ◌≡◌, refl, ap, sym, ◌∙◌, ◌↔◌, Bool, true, false, not, ◌&&◌, Option, some, List,
  [], ◌∷◌, ◌++◌, leb, ◌==◌, if◌then◌else◌, length, ◌>>=◌, arith, length-append,
}
use snapshot_public.Containers.Vector.{Malloc, Vector, init_elems}
use snapshot_public.Containers.Views.{IsMalloc, init_elems-view}

-- `SSO_SZ`
abbrev pub sso_sz : ℕ
sso_sz = 23

-- The union: the size and the characters in the object, or a vector of characters, whose size field
-- is that of the string.
pub data ObjString : Type 0 where
  sso : ℕ → List ℕ → ObjString
  non_sso : Vector ℕ → ObjString

-- `string::size`
unfoldable pub size : ObjString → ℕ
size (sso sz content) = sz
size (non_sso content) = content.size

-- `string::c_str`
unfoldable pub c_str : ObjString → List ℕ
c_str (sso sz content) = content
c_str (non_sso content) = content.content

-- `string::init(res, const std::string &)`; a `std::string` ends in a null character.
unfoldable pub init_string : Malloc ℕ → List ℕ → Option ObjString
init_string malloc str =
    if leb (length str) sso_sz
    then some (sso (length str) (str ++ 0 ∷ []))
    else (do content ← init_elems malloc (str ++ 0 ∷ []) (length str + 1); some (non_sso content))

-- `char_traits<char>::compare` of as many characters as the first has.
unfoldable pub same_chars : (str chars : List ℕ) → Bool
same_chars [] chars = true
same_chars (a ∷ str) [] = false
same_chars (a ∷ str) (b ∷ chars) = a == b && same_chars str chars

-- `string::operator==`, which does the same for both members of the union.
unfoldable pub eq_string : ObjString → List ℕ → Bool
eq_string s str = if not (length str == size s) then false else same_chars str (c_str s)

same_cons : (a b : ℕ) (str key : List ℕ) → a ≡ b → str ≡ key → a ∷ str ≡ b ∷ key
same_cons a b str key e f = rw (e, f) refl

same_chars_iff :
    (str key rest : List ℕ)
    → length str ≡ length key
    → (same_chars str (key ++ rest) ≡ true) ↔ (str ≡ key)
unfolding same_chars
same_chars_iff [] [] rest l = (λ e. refl, λ e. refl)
same_chars_iff [] (b ∷ key) rest l = absurd (omega arith)
same_chars_iff (a ∷ str) [] rest l = absurd (omega arith)
same_chars_iff (a ∷ str) (b ∷ key) rest l =
    let (to, from) = same_chars_iff str key rest (omega arith) in
    (
      λ e. same_cons a b str key (ground arith) (to (ground arith)),
      λ e.
          let same : str ≡ key = cc in
          let head : a ≡ b = cc in let rest_same = from same in ground arith,
    )

-- A short string is equal to the one that it was made from, and to no other.
pub init_string-short :
    (malloc : Malloc ℕ) (key : List ℕ)
    → length key ≤ 23
    → (s : ObjString) × (init_string malloc key ≡ some s)
      × ((str : List ℕ) → (eq_string s str ≡ true) ↔ (str ≡ key))
unfolding init_string eq_string size c_str
init_string-short malloc key h = (
  sso (length key) (key ++ 0 ∷ []),
  ground arith,
  λ str.
      let same = same_chars_iff str key (0 ∷ []) in
      (
        λ e. let len : length str ≡ length key = ground arith in (same len).0 (ground arith),
        λ e.
            let len : length str ≡ length key = ap length e in
            let eq = (same len).1 e in ground arith,
      ),
)

-- A long string is not equal to the one that it was made from: `size` counts the null character.
pub init_string-long :
    (malloc : Malloc ℕ) (key : List ℕ)
    → IsMalloc malloc
    → 23 < length key
    → (s : ObjString) × (init_string malloc key ≡ some s) × (size s ≡ length key + 1)
unfolding init_string size
init_string-long malloc key m h =
    let (v, made, w, held, sz) = init_elems-view malloc (key ++ 0 ∷ []) m in
    let long : leb (length key) 23 ≡ false = ground arith in
    let made' : init_elems malloc (key ++ 0 ∷ []) (length key + 1) ≡ some v =
      ap (init_elems malloc (key ++ 0 ∷ [])) (sym (length-append key (0 ∷ []))) ∙ made in
    (non_sso v, rw (long, made') refl, sz ∙ length-append key (0 ∷ []))
