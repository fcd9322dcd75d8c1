-- ===== src/Raid/Rotating.antt =====
-- RAID 5: `read_raid5` and `write_raid5` of kernel/raid_rw.c.
pub mod Layout
use raid_system.Prelude.{ℕ, suc, ◌-◌, ◌/◌, ◌%◌, Option, some, leb, if◌then◌else◌}
use raid_system.Raid.State.{Config, add_uint, sub_uint, Array, Ret, failure}
use raid_system.Raid.Device.{◌>>◌, divisor}
use raid_system.Raid.Parity.{read_stripe, write_stripe}

-- `blkn / (num_of_disks-1)+1`
unfoldable pub stripe_of : ℕ → ℕ → ℕ
stripe_of n blkn = suc (blkn / sub_uint n 1)

-- `num_of_disks - (stripe-1)%num_of_disks`, from 1 to `num_of_disks`.
unfoldable pub parity_diskn : ℕ → ℕ → ℕ
parity_diskn n stripe = n - (stripe - 1) % n

-- `(parity_diskn + blkn%(num_of_disks-1))%num_of_disks+1`, less 1.
unfoldable pub data_index : ℕ → ℕ → ℕ
unfolding stripe_of parity_diskn
data_index n blkn = add_uint (parity_diskn n (stripe_of n blkn)) (blkn % sub_uint n 1) % n

module _ (c : Config) where
  unfoldable pub read_raid5 : ℕ → Array → Option (Ret × Array)
  unfolding stripe_of parity_diskn data_index read_stripe
  read_raid5 blkn s =
      if leb s.meta.max_dead_disks s.meta.num_dead_disks then some (failure, s) else (do
        let n = s.meta.num_of_disks
        divisor n
        divisor (sub_uint n 1)
        let stripe = stripe_of n blkn
        read_stripe c stripe (parity_diskn n stripe - 1) (data_index n blkn) s)

  unfoldable pub write_raid5 : ℕ → Array → Option (Ret × Array)
  unfolding stripe_of parity_diskn data_index write_stripe
  write_raid5 blkn s =
      if leb s.meta.max_dead_disks s.meta.num_dead_disks then some (failure, s) else (do
        let n = s.meta.num_of_disks
        divisor n
        divisor (sub_uint n 1)
        let stripe = stripe_of n blkn
        write_stripe c stripe (parity_diskn n stripe - 1) (data_index n blkn) s)
