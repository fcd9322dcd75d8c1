-- ===== src/Raid/Mirror/Failure.antt =====
-- `disk_fail_raid` on a mirrored set without a reserve disk.
use native.Mathlib.Decide.{ℕ_discrete}
use raid_system.Prelude.{
  ℕ, zero, suc, ◌+◌, ◌-◌, ◌%◌, ◌^◌, ◌≤◌, ◌<◌, ◌≡◌, ◌≢◌, refl, ap, ◌∙◌, Option, none, some, arith,
  List, length, set, get_or, get_elem?-eq-get_or, ==_eq, ==_ne,
}
use raid_system.Raid.State.{Config, minus_one, dead, raid1, Raid, Array, Transfer}
use raid_system.Raid.Places.{find_last, store_at, drop_disk, fail_disk}
use raid_system.Raid.Mirror.Volume.{data_at, copy_at, IsDisk, Mirrors}

-- Nothing more is found behind the last index.
find_last-rest :
    (x : ℕ) (xs : List ℕ) (n i k : ℕ) (found : Option ℕ)
    → i + n ≡ k
    → k ≤ length xs
    → ((j : ℕ) → i ≤ j → j < k → get_or xs j 0 ≢ x)
    → find_last x xs n i found ≡ some found
unfolding find_last
find_last-rest x xs zero i k found e h none_left = refl
find_last-rest x xs (suc n) i k found e h none_left =
    rw
      (
        get_elem?-eq-get_or xs i 0 (omega arith),
        ==_ne (get_or xs i 0) x (none_left i (omega arith) (omega arith)),
      )
      (find_last-rest x xs n (suc i) k found (omega arith) h (λ j p. none_left j (omega arith)))

-- An element that stands at one index only is found there.
find_last-found :
    (x : ℕ) (xs : List ℕ) (n i k a : ℕ) (found : Option ℕ)
    → i + n ≡ k
    → k ≤ length xs
    → i ≤ a
    → a < k
    → get_or xs a 0 ≡ x
    → ((j : ℕ) → j < k → get_or xs j 0 ≡ x → j ≡ a)
    → find_last x xs n i found ≡ some (some a)
unfolding find_last
find_last-found x xs zero i k a found e h p q at only = absurd (omega arith)
find_last-found x xs (suc n) i k a found e h p q at only = elim (ℕ_discrete i a) [
  | yes here ↦
      rw
        (
          get_elem?-eq-get_or xs i 0 (omega arith),
          ==_eq (get_or xs i 0) x (ap (λ j. get_or xs j 0) here ∙ at),
        )
        (find_last-rest x xs n (suc i) k (some i) (omega arith) h
            (λ j l m at_j. absurd (omega (arith, only j m at_j)))
          ∙ ap (λ t. some (some t)) here)
  | no later ↦
      rw
        (
          get_elem?-eq-get_or xs i 0 (omega arith),
          ==_ne (get_or xs i 0) x (λ at_i. later (only i (omega arith) at_i)),
        )
        (find_last-found x xs n (suc i) k a found (omega arith) h (omega arith) q at only)
]

-- The metadata after disk `d` died: its state and the count.
abbrev pub marked : ℕ → Raid → Raid
marked d m = record m {
  disk_state = set m.disk_state (d - 1) dead;
  num_dead_disks = (m.num_dead_disks + 1) % 2 ^ 32;
}

-- After the primary of column `i` died: the copy took its place.
abbrev pub promoted : ℕ → Raid → Raid
promoted i m = record (marked (data_at m i) m) {
  data_disks = set m.data_disks i (copy_at m i);
  copy_disks = set m.copy_disks i minus_one;
}

-- After the copy of column `i` died.
abbrev pub bared : ℕ → Raid → Raid
bared i m = record (marked (copy_at m i) m) { copy_disks = set m.copy_disks i minus_one }

module _ (c : Config) (v : ℕ → Transfer) (s : Array) (h : Mirrors c v s)
    (is_raid1 : s.meta.type ≡ raid1) (no_reserve : s.meta.reserve_disk ≡ minus_one) (i : ℕ)
    (i_in : i < s.meta.num_of_disks) where
  abbrev m : Raid
  m = s.meta

  -- The disk is marked as dead, and its place is looked for.
  marks : (d : ℕ) → IsDisk c d → fail_disk c d m ≡ drop_disk d (marked d m)
  unfolding fail_disk store_at
  marks d on =
      rw (get_elem?-eq-get_or m.disk_state (d - 1) dead (rw h.readable.layout.states (omega arith)))
        (simp (is_raid1, no_reserve))

  drop-primary : drop_disk (data_at m i) (marked (data_at m i) m) ≡ some (promoted i m)
  unfolding drop_disk store_at
  drop-primary = rw (
    find_last-found (data_at m i) m.data_disks m.num_of_disks 0 m.num_of_disks i none (omega arith)
        (omega (arith, h.readable.layout.data_size)) (omega arith) i_in refl
        (λ j j_in e. h.data_inj j i j_in i_in e),
    get_elem?-eq-get_or m.copy_disks i 0 (rw h.readable.layout.copy_size i_in),
    get_elem?-eq-get_or m.data_disks i 0 (rw h.readable.layout.data_size i_in),
  )

  drop-copy : drop_disk (copy_at m i) (marked (copy_at m i) m) ≡ some (bared i m)
  unfolding drop_disk store_at
  drop-copy = rw (
    find_last-rest (copy_at m i) m.data_disks m.num_of_disks 0 m.num_of_disks none (omega arith)
        (omega (arith, h.readable.layout.data_size)) (λ j p j_in e. h.data-ne-copy j i j_in i_in e),
    find_last-found (copy_at m i) m.copy_disks m.num_of_disks 0 m.num_of_disks i none (omega arith)
        (omega (arith, h.readable.layout.copy_size)) (omega arith) i_in refl
        (λ j j_in e. h.copy_inj j i j_in i_in e),
    get_elem?-eq-get_or m.copy_disks i 0 (rw h.readable.layout.copy_size i_in),
  )

  pub fail_disk-primary : fail_disk c (data_at m i) m ≡ some (promoted i m)
  fail_disk-primary = marks (data_at m i) (h.readable.data_disk i i_in) ∙ drop-primary

  pub fail_disk-copy : fail_disk c (copy_at m i) m ≡ some (bared i m)
  fail_disk-copy = marks (copy_at m i) (h.copy_disk i i_in) ∙ drop-copy
