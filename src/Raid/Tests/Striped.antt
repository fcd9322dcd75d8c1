-- ===== src/Raid/Tests/Striped.antt =====
-- A RAID 0 array of four disks with four blocks each, and the RAID 5 layout.
use raid_system.Prelude.{
  pos, ℕ, ◌-◌, ◌<◌, ◌≡◌, ◌≢◌, refl, arith, none, some, [], if◌then◌else◌, ◌==◌,
}
use raid_system.Raid.State.{Config, Transfer, zero_transfer, zero_raid, Array, success}
use raid_system.Raid.Control.{init_switch}
use raid_system.Raid.Control.Capacity.{initial_raid0}
use raid_system.Raid.System.{Page, System}
use raid_system.Raid.Api.{read_raid}
use raid_system.Raid.Api.Capacity.{read_raid-init_switch}
use raid_system.Raid.Striped.{read_raid0, write_raid0}
use raid_system.Raid.Striped.Laws.{IsStriped, striped_volume, write_raid0-volume, write_raid0-fault}
use raid_system.Raid.Rotating.{stripe_of, parity_diskn, data_index}
use raid_system.Raid.Rotating.Layout.{data_index-ne-parity, data_index_inj}

-- Disks with room for twenty blocks of 1024 bytes.
abbrev four : Config
four = record { disks = 4; disk_size = 20480 }

abbrev numbered : ℕ → ℕ → Transfer
numbered d b = record { first = λ i. d; second = λ i. b }

abbrev array0 : Array
array0 = record {
  meta = initial_raid0 four (zero_raid four);
  slots = [];
  disk = numbered;
  superblock = λ d. zero_raid four;
  user = zero_transfer;
}

array0-IsStriped : IsStriped four array0.meta
unfolding init_switch
array0-IsStriped = record { some_disks = omega arith; all_disks = refl; states = refl }

-- Block 6 is that of disk 3 in row 2.

write_raid0-volume_example :
    (s' : Array) × (write_raid0 four 6 array0 ≡ some (success, s'))
    × (s'.meta ≡ array0.meta)
    × ((b : ℕ) → striped_volume s' b ≡ (if 6 == b then zero_transfer else striped_volume array0 b))
    × (read_raid0 four 6 s' ≡ some (success, record s' { user = zero_transfer }))
unfolding init_switch
write_raid0-volume_example =
    write_raid0-volume four array0 6 6 array0-IsStriped (omega arith) (omega arith) refl refl
      (omega arith) refl

-- Block 16 lies in row 4, behind the four states.
write_raid0-fault_example : write_raid0 four 16 array0 ≡ none
unfolding init_switch
write_raid0-fault_example =
    write_raid0-fault four array0 array0-IsStriped 16 (omega arith) (omega arith)

abbrev page0 : Page
page0 = record { meta = array0.meta; slots = [] }

abbrev running : System
running = record {
  raid_metadata = some page0;
  disk = numbered;
  superblock = λ d. zero_raid four;
  user = zero_transfer;
  free_pages = 2;
  console = [];
}

read_raid-init_switch_example :
    (array0.meta.max_blocks ≡ 156) × (read_raid four (pos 150) 64 running ≡ none)
read_raid-init_switch_example =
    read_raid-init_switch four (zero_raid four) 19 refl (omega arith) (omega arith) page0 running
      refl refl refl 150 64 (λ e. absurd (omega (arith, e))) refl

data_index-ne-parity_example :
    (data_index 4 7 < 4)
    × (parity_diskn 4 (stripe_of 4 7) - 1 < 4)
    × (data_index 4 7 ≢ parity_diskn 4 (stripe_of 4 7) - 1)
data_index-ne-parity_example = data_index-ne-parity 4 (omega arith) (omega arith) 7

data_index_inj_example : ◌≡◌ {A = ℕ} 7 7
data_index_inj_example = data_index_inj 4 (omega arith) (omega arith) 7 7 refl refl

-- Stripe 3 of four disks: its parity is on disk 2, its first block on disk 3.
layout_of_stripe_three : (parity_diskn 4 3 ≡ 2) × (stripe_of 4 6 ≡ 3) × (data_index 4 6 ≡ 2)
unfolding parity_diskn stripe_of data_index
layout_of_stripe_three = (refl, refl, refl)
