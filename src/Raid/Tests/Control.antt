-- ===== src/Raid/Tests/Control.antt =====
-- A RAID 1 set on blank disks from `init_raid` to `destroy_raid`.
use raid_system.Prelude.{
  ℕ, zero, suc, ◌<◌, ◌≡◌, refl, arith, none, some, [], ◌∷◌, get_elem?, replicate,
}
use raid_system.Raid.State.{
  Config, minus_one, alive, dead, repaired, raid1, zero_block, zero_transfer, Raid, zero_raid,
  success, failure,
}
use raid_system.Raid.System.{Page, System, set_page, reset_cache, fetch}
use raid_system.Raid.Places.{repair_disk, fail_disk}
use raid_system.Raid.Places.Count.{IsCounted, num_dead_disks-count_dead}
use raid_system.Raid.Control.Reserve.{initial_raid1, misplaced, fail_disk-init_switch}
use raid_system.Raid.Control.{init_raid, info_raid, destroy_raid}
use raid_system.Raid.Control.Persist.{fetched, fetch-none}
use raid_system.Raid.Control.Lifecycle.{initial, fetch-init_raid, info_raid-destroy_raid}

abbrev four : Config
four = record { disks = 4; disk_size = 4096 }

-- Nothing is in memory, and the disks are blank.
abbrev started : System
started = record {
  raid_metadata = none;
  disk = λ d b. zero_transfer;
  superblock = λ d. zero_raid four;
  user = zero_transfer;
  free_pages = 2;
  console = [];
}

four-pointers : (i : ℕ) → i < 4 → get_elem? (0 ∷ 1 ∷ 2 ∷ 3 ∷ []) i ≡ some i
four-pointers zero h = refl
four-pointers (suc zero) h = refl
four-pointers (suc (suc zero)) h = refl
four-pointers (suc (suc (suc zero))) h = refl
four-pointers (suc (suc (suc (suc i)))) h = absurd (omega arith)

fetch_blank :
    fetch four started
    ≡ some (
      fetched four started,
      record started { free_pages = 1; raid_metadata = some (fetched four started) },
    )
fetch_blank = fetch-none four started 1 alive (omega arith) (omega arith) refl refl refl refl

fetch-init_raid_example :
    (s₁ : System) × (q : Page) × (s₂ : System) × (init_raid four raid1 started ≡ some (success, s₁))
    × (fetch four (record s₁ { raid_metadata = none; free_pages = 3 }) ≡ some (q, s₂))
    × (q.meta ≡ reset_cache four (initial four raid1 (reset_cache four (zero_raid four))))
fetch-init_raid_example =
    fetch-init_raid four raid1 started
      (record started { free_pages = 1; raid_metadata = some (fetched four started) })
      (fetched four started) fetch_blank (omega arith) (omega arith) four-pointers alive 2
      (omega arith) refl refl

-- A set in use: its metadata, with disk 2 dead.
abbrev meta1 : Raid
meta1 = record (zero_raid four) {
  raid_initialized = 1;
  type = raid1;
  num_of_disks = 2;
  max_blocks = 14;
  num_dead_disks = 1;
  disk_state = alive ∷ dead ∷ alive ∷ alive ∷ [];
  data_disks = 1 ∷ 4 ∷ [];
  copy_disks = 3 ∷ minus_one ∷ [];
  reserve_disk = minus_one;
}

abbrev page1 : Page
page1 = record { meta = meta1; slots = replicate 7 zero_block }

abbrev running : System
running = set_page started page1

info_raid-destroy_raid_example :
    (s₁ : System) × (s₂ : System) × (destroy_raid four running ≡ some (success, s₁))
    × (s₁.raid_metadata ≡ none)
    × ((j : ℕ) → j < 4 → s₁.superblock (suc j) ≡ zero_raid four)
    × (info_raid four s₁ ≡ some (failure, none, s₂))
info_raid-destroy_raid_example =
    info_raid-destroy_raid four running page1 refl (omega arith) (omega arith)

-- Disk 2 is dead and is reported as repaired.
num_dead_disks-count_dead_example : IsCounted (record meta1 {
  num_dead_disks = 0;
  disk_state = alive ∷ repaired ∷ alive ∷ alive ∷ [];
  copy_disks = 3 ∷ 2 ∷ [];
})
unfolding repair_disk
num_dead_disks-count_dead_example =
    num_dead_disks-count_dead four meta1
      (record meta1 {
        num_dead_disks = 0;
        disk_state = alive ∷ repaired ∷ alive ∷ alive ∷ [];
        copy_disks = 3 ∷ 2 ∷ [];
      })
      2 dead refl (omega arith) refl refl

abbrev five : Config
five = record { disks = 5; disk_size = 4096 }

abbrev meta5 : Raid
meta5 = zero_raid five

fail_disk-init_switch_example :
    (get_elem? (initial_raid1 five meta5).copy_disks 0 ≡ some 3)
    × ((initial_raid1 five meta5).reserve_disk ≡ 5)
    × (fail_disk five 3 (initial_raid1 five meta5) ≡ none)
    × (get_elem? (misplaced five 2 0 (initial_raid1 five meta5)).copy_disks 0 ≡ some 3)
fail_disk-init_switch_example =
    fail_disk-init_switch five meta5 2 0 refl (omega arith) refl (omega arith)
