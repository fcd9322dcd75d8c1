-- ===== src/Raid/Striped.antt =====
-- RAID 0: `read_raid0` and `write_raid0` of kernel/raid_rw.c.
pub mod Laws
use raid_system.Prelude.{ℕ, suc, ◌/◌, ◌%◌, Option, some, if◌then◌else◌}
use raid_system.Raid.State.{Config, is_dead, Array, Ret, success, failure}
use raid_system.Raid.Device.{◌>>=◌, ◌>>◌, divisor, at_disk, read_user, write_user}

module _ (c : Config) where
  unfoldable pub read_raid0 : ℕ → Array → Option (Ret × Array)
  unfolding read_user
  read_raid0 blkn s = do
    divisor s.meta.num_of_disks
    let diskn = suc (blkn % s.meta.num_of_disks)
    let row = suc (blkn / s.meta.num_of_disks)
    state ← at_disk s.meta.disk_state diskn
    if is_dead state
        then some (failure, s)
        else (do s' ← read_user c diskn row s; some (success, s'))

  -- The state that is tested is that of index `blkn - 1`, after `blkn` was reassigned.
  unfoldable pub write_raid0 : ℕ → Array → Option (Ret × Array)
  unfolding write_user
  write_raid0 blkn s = do
    divisor s.meta.num_of_disks
    let diskn = suc (blkn % s.meta.num_of_disks)
    let row = suc (blkn / s.meta.num_of_disks)
    state ← at_disk s.meta.disk_state row
    if is_dead state
        then some (failure, s)
        else (do s' ← write_user c diskn row s; some (success, s'))
