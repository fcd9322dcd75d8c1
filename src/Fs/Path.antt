-- ===== src/Fs/Path.antt =====
-- The elements of a path in kernel/fs.c: `skipelem`.
pub mod Split
use raid_system.Prelude.{
  ℕ, zero, suc, Bool, true, false, Option, none, some, List, [], ◌∷◌, ◌==◌, if◌then◌else◌,
}

abbrev pub dirsiz : ℕ
dirsiz = 14

-- '/'
abbrev pub slash : ℕ
slash = 47

-- A string is the list of its characters before the byte 0.
abbrev pub Chars : Type 0
Chars = List ℕ

-- while(*path == '/') path++
unfoldable pub skip_slashes : Chars → Chars
skip_slashes [] = []
skip_slashes (c ∷ path) = if c == slash then skip_slashes path else c ∷ path

-- while(*path != '/' && *path != 0) path++: the characters up to there, and from there on.
unfoldable pub element : Chars → Chars
element [] = []
element (c ∷ path) = if c == slash then [] else c ∷ element path

unfoldable pub behind : Chars → Chars
behind [] = []
behind (c ∷ path) = if c == slash then c ∷ path else behind path

-- What `memmove` leaves in `name`: `n` characters at most.
unfoldable pub first_chars : ℕ → Chars → Chars
first_chars zero s = []
first_chars (suc n) [] = []
first_chars (suc n) (c ∷ s) = c ∷ first_chars n s

-- The rest of the path and the name, or `none` for the null pointer.
unfoldable pub skipelem : Chars → Option (Chars × Chars)
unfolding skip_slashes element behind first_chars
skipelem path = elim (skip_slashes path) [
  | [] ↦ none
  | c ∷ s ↦ some (skip_slashes (behind (c ∷ s)), first_chars dirsiz (element (c ∷ s)))
]

-- The names that the loop of `namex` takes from a path, in `fuel` rounds at most.
unfoldable pub names : ℕ → Chars → List Chars
unfolding skipelem
names zero path = []
names (suc fuel) path = elim (skipelem path) [
  | none ↦ []
  | some (rest, name) ↦ name ∷ names fuel rest
]
