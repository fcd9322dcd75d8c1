-- ===== src/Raid/Control/Reserve.antt =====
-- What `disk_fail_raid` of kernel/raid.c does with the reserve disk of a RAID 1 set that
-- `init_raid` made.
use raid_system.Prelude.{
  ℕ, ◌+◌, ◌-◌, ◌*◌, ◌/◌, ◌%◌, ◌<◌, ◌≡◌, refl, ◌∙◌, ap, arith, none, some, length, set, get_elem?,
  ◌==◌, if◌then◌else◌, ==_eq, ==_ne, get_elem?-tabulate, get_elem?-eq-get_or, length-tabulate,
  get_elem?-set_self, get_elem?-set_ne,
}
use native.Mathlib.Decide.{ℕ_discrete}
use raid_system.Raid.State.{Config, minus_one, dead, raid1, Raid}
use raid_system.Raid.Places.{store_at, use_reserve, fail_disk}
use raid_system.Raid.Places.Reserve.{use_reserve-mirrored}
use raid_system.Raid.Control.{init_common, init_switch}

-- The metadata that `init_raid` makes for RAID 1.
abbrev pub initial_raid1 : Config → Raid → Raid
initial_raid1 c m = init_switch c raid1 (init_common c raid1 m)

-- Disk `n + 1 + j` is dead, and the reserve is entered for the copy of column `n - j`.
abbrev pub misplaced : Config → ℕ → ℕ → Raid → Raid
misplaced c n j m = record m {
  disk_state = set m.disk_state (n + j) dead;
  num_dead_disks = 1;
  copy_disks = set m.copy_disks (n - j) c.disks;
  reserve_disk = 0;
}

-- The failure of the copy of column `j`, where the last disk is in reserve
fail_disk-odd :
    (c : Config) (m : Raid) (n j : ℕ)
    → c.disks ≡ 2 * n + 1
    → c.disks < minus_one
    → j < n
    → m.type ≡ raid1
    → m.reserve_disk ≡ c.disks
    → m.num_dead_disks ≡ 0
    → m.num_of_disks ≡ n
    → length m.disk_state ≡ c.disks
    → length m.copy_disks ≡ n
    → fail_disk c (n + 1 + j) m ≡ (if j == 0 then none else some (misplaced c n j m))
unfolding fail_disk store_at
fail_disk-odd c m n j odd few j_in is_raid1 reserve none_dead count states copies =
    let index : n + 1 + j - 1 ≡ n + j = omega arith in
    let m' : Raid = record m { disk_state = set m.disk_state (n + j) dead; num_dead_disks = 1 } in
    let step : fail_disk c (n + 1 + j) m ≡ use_reserve c (n + 1 + j) m' =
      rw
        (
          index,
          get_elem?-eq-get_or m.disk_state (n + j) dead (omega (arith, states, odd)),
          is_raid1,
          none_dead,
          reserve,
          ==_ne c.disks minus_one (omega arith),
          ==_ne c.disks 0 (omega (arith, odd)),
        )
        refl in
    step
    ∙ use_reserve-mirrored c m' n j odd count copies j_in
    ∙ ap
        (λ r.
          if j == 0
          then none
          else some (record m' { copy_disks = set m.copy_disks (n - j) r; reserve_disk = 0 }))
        reserve

module _ (c : Config) (m : Raid) (n j : ℕ) (odd : c.disks ≡ 2 * n + 1) (few : c.disks < minus_one)
    (states : length m.disk_state ≡ c.disks) (j_in : j < n) where
  half : c.disks / 2 ≡ n
  half = omega (arith, odd)

  copies : (i : ℕ) → i < n → get_elem? (initial_raid1 c m).copy_disks i ≡ some (n + 1 + i)
  unfolding init_switch
  copies i i_in = rw half (
      get_elem?-tabulate n 0 i i (λ i. i + 1 + n) i_in (omega arith)
      ∙ ap some (let e : i + 1 + n ≡ n + 1 + i = omega arith in e))

  last_in_reserve : (initial_raid1 c m).reserve_disk ≡ c.disks
  unfolding init_switch
  last_in_reserve = rw (==_ne (c.disks % 2) 0 (λ e. absurd (omega (arith, odd, e)))) refl

  length-copies : length (initial_raid1 c m).copy_disks ≡ n
  unfolding init_switch
  length-copies = rw half (length-tabulate n 0 (λ i. i + 1 + n))

  fail_disk-initial :
      fail_disk c (n + 1 + j) (initial_raid1 c m)
      ≡ (if j == 0 then none else some (misplaced c n j (initial_raid1 c m)))
  unfolding init_switch
  fail_disk-initial =
      fail_disk-odd c (initial_raid1 c m) n j odd few j_in refl last_in_reserve refl half states
        length-copies

  copy-after :
      get_elem? (misplaced c n j (initial_raid1 c m)).copy_disks j
      ≡ some (if j + j == n then c.disks else n + 1 + j)
  copy-after = elim (ℕ_discrete (j + j) n) [
    | yes e ↦
        let same : n - j ≡ j = omega arith in
        rw (==_eq (j + j) n e, same)
          (get_elem?-set_self (initial_raid1 c m).copy_disks j c.disks
            (omega (arith, length-copies)))
    | no ne ↦ rw (==_ne (j + j) n ne) (
        get_elem?-set_ne (initial_raid1 c m).copy_disks (n - j) j c.disks (omega arith)
        ∙ copies j j_in)
  ]

  -- What `init_raid` sets for RAID 1 on an odd number of disks, `2 * n + 1`, in any metadata
  -- makes disk `n + 1 + j` the copy of column `j` and takes the last disk in reserve. When that
  -- copy is reported dead, the change of the metadata enters the reserve for the copy of column
  -- `n - j`: for column 0 this lies outside the array, for another column the call succeeds; and
  -- the copy of column `j` is the dead disk as before, unless the column is the one in the
  -- middle, `j + j = n`. There are states for all disks, and fewer than `2 ^ 32 - 1` disks.
  pub fail_disk-init_switch :
      (get_elem? (initial_raid1 c m).copy_disks j ≡ some (n + 1 + j))
      × ((initial_raid1 c m).reserve_disk ≡ c.disks)
      × (fail_disk c (n + 1 + j) (initial_raid1 c m)
          ≡ (if j == 0 then none else some (misplaced c n j (initial_raid1 c m))))
      × (get_elem? (misplaced c n j (initial_raid1 c m)).copy_disks j
          ≡ some (if j + j == n then c.disks else n + 1 + j))
  fail_disk-init_switch = (copies j j_in, last_in_reserve, fail_disk-initial, copy-after)
