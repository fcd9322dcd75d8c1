-- ===== src/Raid/Places.antt =====
-- Which disk serves what in `struct raid`: the parts of `disk_fail_raid` and
-- `disk_repaired_raid` of kernel/raid.c that work on the metadata alone.
pub mod Count
pub mod Reserve
use raid_system.Prelude.{
  ℕ, zero, suc, ◌-◌, Bool, true, false, ◌||◌, Option, none, some, List, leb, ◌==◌, if◌then◌else◌,
  get_elem?, set,
}
use raid_system.Raid.State.{
  Config, add_uint, sub_uint, minus_one, dead, repaired, RaidType, raid0, raid1, raid0_1, raid4,
  raid5, other, Raid,
}
use raid_system.Raid.Device.{◌>>=◌, ◌>>◌}

-- A write to an array of `struct raid`.
unfoldable pub store_at {ℓ} : {A : Type ℓ} → List A → ℕ → A → Option (List A)
store_at xs i v = do get_elem? xs i; some (set xs i v)

-- The last index below `n` at which the array holds `x`, starting from index `i`.
unfoldable pub find_last : ℕ → List ℕ → ℕ → ℕ → Option ℕ → Option (Option ℕ)
find_last x xs zero i found = some found
find_last x xs (suc n) i found = do
  v ← get_elem? xs i
  find_last x xs n (suc i) (if v == x then some i else found)

-- The first index below `n` at which the array holds -1.
unfoldable pub find_missing : List ℕ → ℕ → ℕ → Option (Option ℕ)
find_missing xs zero i = some none
find_missing xs (suc n) i = do
  v ← get_elem? xs i
  elim (v == minus_one) [ true ↦ some (some i) | false ↦ find_missing xs n (suc i) ]

-- `type == RAID0 || type == RAID4 || type == RAID5`
abbrev pub has_no_mirror : RaidType → Bool
has_no_mirror raid0 = true
has_no_mirror raid1 = false
has_no_mirror raid0_1 = false
has_no_mirror raid4 = true
has_no_mirror raid5 = true
has_no_mirror (other n) = false

-- No reserve: the copy takes the place of a primary, and a copy is marked as missing.
unfoldable pub drop_disk : ℕ → Raid → Option Raid
unfolding find_last store_at
drop_disk diskn m = do
  primary ← find_last diskn m.data_disks m.num_of_disks 0 none
  elim primary [
    | some i ↦ (do
      copy ← get_elem? m.copy_disks i
      data_disks ← store_at m.data_disks i copy
      copy_disks ← store_at m.copy_disks i minus_one
      some (record m { data_disks = data_disks; copy_disks = copy_disks }))
    | none ↦ (do
      found ← find_last diskn m.copy_disks m.num_of_disks 0 none
      i ← found
      copy_disks ← store_at m.copy_disks i minus_one
      some (record m { copy_disks = copy_disks }))
  ]

-- A repaired disk becomes a missing primary, a missing copy or the reserve.
unfoldable pub place_disk : ℕ → Raid → Option Raid
unfolding find_missing store_at
place_disk diskn m = do
  primary ← find_missing m.data_disks m.num_of_disks 0
  elim primary [
    | some i ↦ (do
      data_disks ← store_at m.data_disks i diskn
      some (record m { data_disks = data_disks }))
    | none ↦ (do
      copy ← find_missing m.copy_disks m.num_of_disks 0
      elim copy [
        | some i ↦ (do
          copy_disks ← store_at m.copy_disks i diskn
          some (record m { copy_disks = copy_disks }))
        | none ↦ some (record m { reserve_disk = diskn })
      ])
  ]

-- What `disk_repaired_raid` does to the metadata of a dead disk.
unfoldable pub repair_disk : ℕ → Raid → Option Raid
unfolding place_disk store_at
repair_disk diskn m₀ = do
  disk_state ← store_at m₀.disk_state (diskn - 1) repaired
  let m : Raid = record m₀ {
    disk_state = disk_state;
    num_dead_disks = sub_uint m₀.num_dead_disks 1;
  }
  if has_no_mirror m.type then some m else place_disk diskn m

module _ (c : Config) where
  -- A reserve disk takes the place of the disk that died.
  unfoldable pub use_reserve : ℕ → Raid → Option Raid
  unfolding store_at
  use_reserve diskn m =
      if leb diskn m.num_of_disks
      then (do
        copy ← get_elem? m.copy_disks (diskn - 1)
        data_disks ← store_at m.data_disks (diskn - 1) copy
        copy_disks ← store_at m.copy_disks (diskn - 1) m.reserve_disk
        some (record m { data_disks = data_disks; copy_disks = copy_disks; reserve_disk = 0 }))
      else (do
        copy_disks ← store_at m.copy_disks (c.disks - diskn) m.reserve_disk
        some (record m { copy_disks = copy_disks; reserve_disk = 0 }))

  -- What `disk_fail_raid` does to the metadata of a disk that is not dead yet.
  unfoldable pub fail_disk : ℕ → Raid → Option Raid
  unfolding use_reserve drop_disk store_at
  fail_disk diskn m₀ = do
    disk_state ← store_at m₀.disk_state (diskn - 1) dead
    let m : Raid = record m₀ {
      disk_state = disk_state;
      num_dead_disks = add_uint m₀.num_dead_disks 1;
    }
    if has_no_mirror m.type
        then some m
        else if m.reserve_disk == minus_one || m.reserve_disk == 0
        then drop_disk diskn m
        else use_reserve diskn m
