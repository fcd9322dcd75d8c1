-- ===== src/Raid/Striped/Laws.antt =====
-- RAID 0 as a volume without redundancy, and the disk state that `write_raid0` tests.
use raid_system.Prelude.{
  ℕ, suc, ap, ◌∙◌, ◌/◌, ◌%◌, ◌<◌, ◌≡◌, ◌≢◌, refl, false, true, none, some, arith, length,
  get_elem?-none, ◌==◌, if◌then◌else◌, mod-lt_ne, get_or, get_elem?-eq-get_or,
}
use raid_system.Raid.State.{Config, bsize, dead, is_dead, Raid, Array, Transfer, success, failure}
use raid_system.Raid.Device.{on_device, update_disk}
use raid_system.Raid.Striped.{read_raid0, write_raid0}

-- The 1024 bytes that block `blkn` of a RAID 0 array stands for.
abbrev pub striped_volume : Array → ℕ → Transfer
striped_volume s blkn = s.disk (suc (blkn % s.meta.num_of_disks)) (suc (blkn / s.meta.num_of_disks))

-- The metadata of a RAID 0 array.
pub record IsStriped (c : Config) (m : Raid) : Type 0 where
  pub some_disks : m.num_of_disks ≢ 0
  pub all_disks : m.num_of_disks ≡ c.disks
  pub states : length m.disk_state ≡ c.disks

module _ (c : Config) (s : Array) (l : IsStriped c s.meta) (blkn : ℕ)
    (fits : suc (blkn / s.meta.num_of_disks) < c.disk_size / bsize) where
  abbrev n : ℕ
  n = s.meta.num_of_disks

  column_in : blkn % n < c.disks
  column_in = omega (arith, mod-lt_ne blkn n l.some_disks, l.all_disks)

  on_device-column : on_device c (suc (blkn % n)) (suc (blkn / n)) ≡ true
  on_device-column = ground (arith, column_in)

  -- A read gives the block of the volume if its disk is not dead, and else fails and changes
  -- nothing.
  pub read_raid0_lem :
      read_raid0 c blkn s
      ≡ some (
          if is_dead (get_or s.meta.disk_state (blkn % n) dead)
          then (failure, s)
          else (success, record s { user = striped_volume s blkn }))
  unfolding read_raid0
  read_raid0_lem = ground (
    arith,
    l.some_disks,
    get_elem?-eq-get_or s.meta.disk_state (blkn % n) dead (rw l.states column_in),
    on_device-column,
  )

  -- What a write does when the state that it tests is not that of a dead disk.
  write_raid0-alive :
      blkn / n < c.disks
      → is_dead (get_or s.meta.disk_state (blkn / n) dead) ≡ false
      → write_raid0 c blkn s
        ≡ some (
          success,
          record s { disk = update_disk s.disk (suc (blkn % n)) (suc (blkn / n)) s.user },
        )
  unfolding write_raid0
  write_raid0-alive row_in alive = ground (
    arith,
    l.some_disks,
    get_elem?-eq-get_or s.meta.disk_state (blkn / n) dead (rw l.states row_in),
    on_device-column,
  )

  -- `write_raid0` of a block in row `disks` or behind reads `disk_state` out of its bounds: the
  -- state that it tests is that of the row and not that of the disk.
  pub write_raid0-fault : ¬ (blkn / n < c.disks) → write_raid0 c blkn s ≡ none
  unfolding write_raid0
  write_raid0-fault out =
      ground (arith, l.some_disks, get_elem?-none s.meta.disk_state (blkn / n) (rw l.states out))

-- Different blocks of the array lie on different disks or in different rows.
pub address_inj : (n a b : ℕ) → n ≢ 0 → a % n ≡ b % n → a / n ≡ b / n → a ≡ b
address_inj n a b ne p q = grind arith

-- A write to a row that lies on the disks and is one of the first, one for each disk, succeeds
-- if the disk of the block and the disk with the number of that row are not dead. It replaces the
-- block of the volume and changes no other; and `read_raid0` of any block in a row that lies on the
-- disks, whose disk is not dead, then gives what was written or what the volume held before.
pub write_raid0-volume :
    (c : Config) (s : Array) (a b : ℕ)
    → IsStriped c s.meta
    → suc (a / s.meta.num_of_disks) < c.disk_size / bsize
    → a / s.meta.num_of_disks < c.disks
    → is_dead (get_or s.meta.disk_state (a % s.meta.num_of_disks) dead) ≡ false
    → is_dead (get_or s.meta.disk_state (a / s.meta.num_of_disks) dead) ≡ false
    → suc (b / s.meta.num_of_disks) < c.disk_size / bsize
    → is_dead (get_or s.meta.disk_state (b % s.meta.num_of_disks) dead) ≡ false
    → (s' : Array) × (write_raid0 c a s ≡ some (success, s'))
      × (s'.meta ≡ s.meta)
      × ((i : ℕ) → striped_volume s' i ≡ (if a == i then s.user else striped_volume s i))
      × (read_raid0 c b s'
          ≡ some (success, record s' { user = if a == b then s.user else striped_volume s b }))
write_raid0-volume c s a b l fits row_in target alive fits_b alive_b =
    let s' : Array = record s {
      disk =
          update_disk s.disk (suc (a % s.meta.num_of_disks)) (suc (a / s.meta.num_of_disks)) s.user;
    } in
    let volume : (i : ℕ) → striped_volume s' i ≡ (if a == i then s.user else striped_volume s i) =
      λ i. ground (arith, address_inj s.meta.num_of_disks a i l.some_disks) in
    (
      s',
      write_raid0-alive c s l a fits row_in alive,
      refl,
      volume,
      read_raid0_lem c s' l b fits_b
          ∙ rw alive_b (ap (λ u. some (success, record s' { user = u })) (volume b)),
    )
