-- ===== src/Raid/Places/Count.antt =====
-- `num_dead_disks` counts the disks that are dead.
use raid_system.Prelude.{
  ℕ, zero, suc, ◌+◌, ◌-◌, ◌%◌, ◌^◌, ◌≤◌, ◌<◌, ◌≡◌, refl, ap, arith, true, false, some, List, [],
  ◌∷◌, length, length-set, get_elem?, set, if◌then◌else◌, Bool-cases, inl, inr,
}
use raid_system.Raid.State.{Config, DiskState, alive, dead, repaired, is_dead, Raid}
use raid_system.Raid.Places.{store_at, drop_disk, use_reserve, fail_disk, place_disk, repair_disk}

abbrev pub weight : DiskState → ℕ
weight alive = 0
weight dead = 1
weight repaired = 0

-- How many disks are dead.
abbrev pub count_dead : List DiskState → ℕ
count_dead [] = 0
count_dead (x ∷ xs) = weight x + count_dead xs

weight-dead : (x : DiskState) → is_dead x ≡ true → weight x ≡ 1
weight-dead alive h = absurd (cc)
weight-dead dead h = refl
weight-dead repaired h = absurd (cc)

weight-alive : (x : DiskState) → is_dead x ≡ false → weight x ≡ 0
weight-alive alive h = refl
weight-alive dead h = absurd (cc)
weight-alive repaired h = refl

count_dead-le-length : (xs : List DiskState) → count_dead xs ≤ length xs
count_dead-le-length [] = omega arith
count_dead-le-length (alive ∷ xs) = omega (arith, count_dead-le-length xs)
count_dead-le-length (dead ∷ xs) = omega (arith, count_dead-le-length xs)
count_dead-le-length (repaired ∷ xs) = omega (arith, count_dead-le-length xs)

count_dead-set :
    (xs : List DiskState) (i : ℕ) (x y : DiskState)
    → get_elem? xs i ≡ some x
    → count_dead (set xs i y) + weight x ≡ count_dead xs + weight y
count_dead-set [] i x y h = absurd (cc)
count_dead-set (z ∷ xs) zero x y h = let e : z ≡ x = cc in omega (arith, ap weight e)
count_dead-set (z ∷ xs) (suc i) x y h = omega (arith, count_dead-set xs i x y h)

-- The counter agrees with the states.
abbrev pub IsCounted : Raid → Type 0
IsCounted m = m.num_dead_disks ≡ count_dead m.disk_state

-- Two metadata with the same states and the same counter.
abbrev SameStates : Raid → Raid → Type 0
SameStates m m' = (m'.disk_state ≡ m.disk_state) × (m'.num_dead_disks ≡ m.num_dead_disks)

drop_disk-SameStates : (d : ℕ) (m m' : Raid) → drop_disk d m ≡ some m' → SameStates m m'
unfolding drop_disk store_at
drop_disk-SameStates d m m' h = ground arith

use_reserve-SameStates :
    (c : Config) (d : ℕ) (m m' : Raid) → use_reserve c d m ≡ some m' → SameStates m m'
unfolding use_reserve store_at
use_reserve-SameStates c d m m' h = ground arith

place_disk-SameStates : (d : ℕ) (m m' : Raid) → place_disk d m ≡ some m' → SameStates m m'
unfolding place_disk store_at
place_disk-SameStates d m m' h = ground arith

module _ (m m' : Raid) (counted : IsCounted m) (few : length m.disk_state < 2 ^ 32) (d : ℕ)
    (state : DiskState) (at : get_elem? m.disk_state (d - 1) ≡ some state) where
  abbrev marked : DiskState → ℕ → Raid
  marked x n = record m { disk_state = set m.disk_state (d - 1) x; num_dead_disks = n }

  fails-IsCounted :
      is_dead state ≡ false
      → SameStates (marked dead ((m.num_dead_disks + 1) % 2 ^ 32)) m'
      → IsCounted m'
  fails-IsCounted live same = omega (
    arith,
    same.1,
    ap count_dead same.0,
    count_dead-set m.disk_state (d - 1) state dead at,
    weight-alive state live,
    count_dead-le-length (set m.disk_state (d - 1) dead),
    length-set m.disk_state (d - 1) dead,
  )

  repairs-IsCounted :
      is_dead state ≡ true
      → SameStates (marked repaired ((m.num_dead_disks + 2 ^ 32 - 1) % 2 ^ 32)) m'
      → IsCounted m'
  repairs-IsCounted gone same = omega (
    arith,
    same.1,
    ap count_dead same.0,
    count_dead-set m.disk_state (d - 1) state repaired at,
    weight-dead state gone,
    count_dead-le-length m.disk_state,
  )

  fail_disk-SameStates :
      (c : Config)
      → fail_disk c d m ≡ some m'
      → SameStates (marked dead ((m.num_dead_disks + 1) % 2 ^ 32)) m'
  unfolding fail_disk store_at
  fail_disk-SameStates c h = ground (arith, at)

  repair_disk-SameStates :
      repair_disk d m ≡ some m'
      → SameStates (marked repaired ((m.num_dead_disks + 2 ^ 32 - 1) % 2 ^ 32)) m'
  unfolding repair_disk store_at
  repair_disk-SameStates h = ground (arith, at)

-- Reporting a disk that was not dead as dead, and a dead one as repaired, keeps `num_dead_disks`
-- the number of disks that are dead, whatever the type and whichever place the disk had, when
-- the change of the metadata runs into no access out of bounds.
pub num_dead_disks-count_dead :
    (c : Config) (m m' : Raid) (d : ℕ) (state : DiskState)
    → IsCounted m
    → length m.disk_state < 2 ^ 32
    → get_elem? m.disk_state (d - 1) ≡ some state
    → (if is_dead state then repair_disk d m else fail_disk c d m) ≡ some m'
    → IsCounted m'
num_dead_disks-count_dead c m m' d state counted few at h = elim (Bool-cases (is_dead state)) [
  | inl gone ↦
      repairs-IsCounted m m' counted few d state at gone
        (repair_disk-SameStates m m' counted few d state at (rw gone at h))
  | inr live ↦
      fails-IsCounted m m' counted few d state at live
        (fail_disk-SameStates m m' counted few d state at c (rw live at h))
]
