-- ===== src/Fs/Path/Split.antt =====
-- The names that `skipelem` of kernel/fs.c takes from a path that is put together from elements.
use native.Mathlib.Decide.{ℕ_discrete}
use raid_system.Prelude.{
  sym, get_elem?, ltb, if◌then◌else◌, lt→ltb, le→ltb, inl, inr, Bool-cases, ap₂, ==_eq, ℕ, zero,
  suc, ◌<◌, ◌≡◌, ◌≢◌, refl, ◌∙◌, ap, arith, some, none, List, [], ◌∷◌, ◌++◌, ==_ne, length,
}
use raid_system.Fs.Path.{
  dirsiz, slash, Chars, skip_slashes, element, behind, first_chars, skipelem, names,
}

-- No slash is in the string.
abbrev pub IsPlain : Chars → Type 0
IsPlain [] = Unit
IsPlain (c ∷ s) = (c ≢ slash) × IsPlain s

-- An element of a path: a slash or more before it, and characters, at least one, none a slash.
pub record Element : Type 0 where
  pub slashes : ℕ
  pub head : ℕ
  pub tail : Chars

abbrev pub name_of : Element → Chars
name_of e = e.head ∷ e.tail

abbrev pub AllPlain : List Element → Type 0
AllPlain [] = Unit
AllPlain (e ∷ es) = IsPlain (name_of e) × AllPlain es

-- `n` slashes in front of a string
abbrev pub slashed : ℕ → Chars → Chars
slashed zero s = s
slashed (suc n) s = slash ∷ slashed n s

-- The elements with `slashes` + 1 slashes before each, and `end` slashes behind the last
abbrev pub path_of : List Element → ℕ → Chars
path_of [] end = slashed end []
path_of (e ∷ es) end = slashed (suc e.slashes) (name_of e ++ path_of es end)

skip_slashes-slashed : (n : ℕ) (s : Chars) → skip_slashes (slashed n s) ≡ skip_slashes s
unfolding skip_slashes
skip_slashes-slashed zero s = refl
skip_slashes-slashed (suc n) s = skip_slashes-slashed n s

-- A string that is empty or starts with a slash
abbrev pub IsEnd : Chars → Type 0
IsEnd [] = Unit
IsEnd (c ∷ s) = c ≡ slash

path_of-IsEnd : (es : List Element) (end : ℕ) → IsEnd (path_of es end)
path_of-IsEnd [] zero = tt
path_of-IsEnd [] (suc n) = refl
path_of-IsEnd (e ∷ es) end = refl

element_lem : (s t : Chars) → IsPlain s → IsEnd t → element (s ++ t) ≡ s
unfolding element
element_lem [] [] plain end = refl
element_lem [] (c ∷ t) plain end = rw end refl
element_lem (c ∷ s) t (ne, plain) end =
    rw (==_ne c slash ne) (ap (λ x. c ∷ x) (element_lem s t plain end))

behind_lem : (s t : Chars) → IsPlain s → IsEnd t → behind (s ++ t) ≡ t
unfolding behind
behind_lem [] [] plain end = refl
behind_lem [] (c ∷ t) plain end = rw end refl
behind_lem (c ∷ s) t (ne, plain) end = rw (==_ne c slash ne) (behind_lem s t plain end)

skip_slashes-plain : (c : ℕ) (s : Chars) → c ≢ slash → skip_slashes (c ∷ s) ≡ c ∷ s
unfolding skip_slashes
skip_slashes-plain c s ne = rw (==_ne c slash ne) refl

skip_slashes_twice : (s : Chars) → skip_slashes (skip_slashes s) ≡ skip_slashes s
unfolding skip_slashes
skip_slashes_twice [] = refl
skip_slashes_twice (c ∷ s) = elim (ℕ_discrete c slash) [
  | yes e ↦ rw (==_eq c slash e, skip_slashes) (skip_slashes_twice s)
  | no ne ↦ rw (==_ne c slash ne, skip_slashes) (skip_slashes-plain c s ne)
]

skipelem_lem :
    (e : Element) (t : Chars)
    → IsPlain (name_of e)
    → IsEnd t
    → skipelem (slashed (suc e.slashes) (name_of e ++ t))
      ≡ some (skip_slashes t, first_chars dirsiz (name_of e))
unfolding skipelem
skipelem_lem e t (ne, plain) end =
    let start : skip_slashes (slashed (suc e.slashes) (name_of e ++ t)) ≡ name_of e ++ t =
      skip_slashes-slashed (suc e.slashes) (name_of e ++ t)
      ∙ skip_slashes-plain e.head (e.tail ++ t) ne in
    rw (start, skipelem)
      (ap₂ (λ x y. some (skip_slashes x, first_chars dirsiz y))
        (behind_lem (name_of e) t (ne, plain) end) (element_lem (name_of e) t (ne, plain) end))

skipelem-skip_slashes : (s : Chars) → skipelem (skip_slashes s) ≡ skipelem s
unfolding skipelem
skipelem-skip_slashes s = rw (skip_slashes_twice s, skipelem) refl

names-skip_slashes : (fuel : ℕ) (s : Chars) → names fuel (skip_slashes s) ≡ names fuel s
unfolding names
names-skip_slashes zero s = refl
names-skip_slashes (suc fuel) s = rw (skipelem-skip_slashes s, names) refl

-- The name of an element has the first 14 of its characters, or all of them.
abbrev pub IsNameOf : Chars → Element → Type 0
IsNameOf name e = (i : ℕ) → get_elem? name i ≡ (if ltb i 14 then get_elem? (name_of e) i else none)

-- One name for each element, in the same order
abbrev pub AllNamed : List Chars → List Element → Type 0
AllNamed [] [] = Unit
AllNamed [] (e ∷ es) = ⊥
AllNamed (n ∷ ns) [] = ⊥
AllNamed (n ∷ ns) (e ∷ es) = IsNameOf n e × AllNamed ns es

first_chars_lem :
    (n i : ℕ) (s : Chars)
    → get_elem? (first_chars n s) i ≡ (if ltb i n then get_elem? s i else none)
unfolding first_chars
first_chars_lem zero i s = rw (le→ltb i 0 (omega arith)) refl
first_chars_lem (suc n) i [] = elim (Bool-cases (ltb i (suc n))) [
  | inl e ↦ rw e refl
  | inr e ↦ rw e refl
]
first_chars_lem (suc n) zero (c ∷ s) = rw (lt→ltb 0 (suc n) (omega arith)) refl
first_chars_lem (suc n) (suc i) (c ∷ s) =
    let e : ltb (suc i) (suc n) ≡ ltb i n = ground arith in rw e (first_chars_lem n i s)

abbrev names_of : List Element → List Chars
names_of [] = []
names_of (e ∷ es) = first_chars dirsiz (name_of e) ∷ names_of es

names_of-AllNamed : (es : List Element) → AllNamed (names_of es) es
names_of-AllNamed [] = tt
names_of-AllNamed (e ∷ es) = (λ i. first_chars_lem 14 i (name_of e), names_of-AllNamed es)

-- The path without the slashes in front of its first element
abbrev pub relative : List Element → ℕ → Chars
relative [] end = []
relative (e ∷ es) end = name_of e ++ path_of es end

relative-skip_slashes :
    (es : List Element) (end : ℕ) → AllPlain es → skip_slashes (path_of es end) ≡ relative es end
unfolding skip_slashes
relative-skip_slashes [] end plain = skip_slashes-slashed end []
relative-skip_slashes (e ∷ es) end ((ne, plain), rest) =
    skip_slashes-slashed (suc e.slashes) (name_of e ++ path_of es end)
    ∙ skip_slashes-plain e.head (e.tail ++ path_of es end) ne

skipelem-slashed : (n : ℕ) → skipelem (slashed n []) ≡ none
unfolding skipelem skip_slashes
skipelem-slashed n = rw (skip_slashes-slashed n [], skipelem) refl

names-path_of :
    (es : List Element) (end fuel : ℕ)
    → AllPlain es
    → length es < fuel
    → names fuel (path_of es end) ≡ names_of es
unfolding names
names-path_of es end zero plain h = absurd (omega arith)
names-path_of [] end (suc fuel) plain h = rw (skipelem-slashed end, names) refl
names-path_of (e ∷ es) end (suc fuel) (plain, rest) h =
    rw (skipelem_lem e (path_of es end) plain (path_of-IsEnd es end), names)
      (ap (λ x. first_chars dirsiz (name_of e) ∷ x)
        (names-skip_slashes fuel (path_of es end) ∙ names-path_of es end fuel rest (omega arith)))

-- The loop of `namex` over `skipelem`, on a path made of elements of at least one character and
-- no slash, with a slash or more before each and any number of slashes at the end, takes a name
-- for each element, in order, and nothing else: the first 14 characters of the element, or all.
-- One round more than there are elements is enough, and more rounds change nothing. It does the
-- same on the path without the slashes in front of the first element.
pub names-Takes :
    (es : List Element) (end fuel : ℕ)
    → AllPlain es
    → length es < fuel
    → (ns : List Chars) × (names fuel (path_of es end) ≡ ns)
      × (names fuel (relative es end) ≡ ns)
      × AllNamed ns es
names-Takes es end fuel plain h = (
  names_of es,
  names-path_of es end fuel plain h,
  ap (names fuel) (sym (relative-skip_slashes es end plain))
      ∙ names-skip_slashes fuel (path_of es end)
      ∙ names-path_of es end fuel plain h,
  names_of-AllNamed es,
)
