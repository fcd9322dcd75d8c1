-- ===== src/Fs/Tests/Lookup.antt =====
-- A table with the one inode of the small file system, and a path.
use native.Mathlib.Decide.{ℕ_discrete}
use raid_system.Prelude.{
  ℕ, ◌<◌, ◌≡◌, refl, sym, ◌∙◌, arith, false, List, [], ◌∷◌, ◌==◌, if◌then◌else◌, ==_ne,
}
use raid_system.Fs.Inode.{Inode}
use raid_system.Fs.Table.{Itable, iget}
use raid_system.Fs.Table.Scan.{IsHeld}
use raid_system.Fs.Table.Get.{IsUnique, Gets, iget-Gets}
use raid_system.Fs.Path.{Chars, names}
use raid_system.Fs.Path.Split.{Element, AllPlain, path_of, relative, AllNamed, names-Takes}
use raid_system.Fs.Tests.{file}

abbrev unused : Inode
unused = record file { dev = 0; inum = 0; ref = 0; valid = false }

abbrev table : Itable
table i = if i == 3 then file else unused

held-third : (i dev inum : ℕ) → IsHeld dev inum (table i) → i ≡ 3
held-third i dev inum held = elim (ℕ_discrete i 3) [
  | yes e ↦ e
  | no ne ↦ absurd (no_ref (rw (==_ne i 3 ne) at held.0))
]
  where
    no_ref : ¬ (0 < 0)
    no_ref h = omega (arith, h)

table-IsUnique : IsUnique table
table-IsUnique = record {
  unique = λ i j dev inum hi hj held held'.
      held-third i dev inum held ∙ sym (held-third j dev inum held');
}

iget-Gets_example : Gets 1 3 table (iget 1 3 table)
iget-Gets_example = iget-Gets 1 3 7 table table-IsUnique (omega arith) refl

-- "//a/bb/"
abbrev a_bb : List Element
a_bb =
    record { slashes = 1; head = 97; tail = [] }
    ∷ record { slashes = 0; head = 98; tail = 98 ∷ [] }
    ∷ []

a_bb-AllPlain : AllPlain a_bb
a_bb-AllPlain = (
  ((λ e. absurd (omega (arith, e))), tt),
  (((λ e. absurd (omega (arith, e))), ((λ e. absurd (omega (arith, e))), tt)), tt),
)

names-Takes_example :
    (ns : List Chars) × (names 3 (path_of a_bb 1) ≡ ns)
    × (names 3 (relative a_bb 1) ≡ ns)
    × AllNamed ns a_bb
names-Takes_example = names-Takes a_bb 1 3 a_bb-AllPlain (omega arith)
