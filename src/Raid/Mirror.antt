-- ===== src/Raid/Mirror.antt =====
-- RAID 1 and RAID 0+1: `read_raid1`, `write_raid1`, `read_raid01` and `write_raid01` of
-- kernel/raid_rw.c.
pub mod Volume
pub mod Failure
pub mod Survives
pub mod Raid1
use raid_system.Prelude.{
  ℕ, suc, ◌/◌, ◌%◌, Bool, true, false, Option, some, if◌then◌else◌, get_elem?,
}
use raid_system.Raid.State.{Config, is_dead, Array, Ret, success, failure}
use raid_system.Raid.Device.{◌>>=◌, ◌>>◌, divisor, at_disk, read_user, write_user}

module _ (c : Config) where
  unfoldable pub read_raid1 : ℕ → Array → Option (Ret × Array)
  unfolding read_user
  read_raid1 blkn s = do
    divisor s.meta.num_of_disks
    let disk_index = blkn % s.meta.num_of_disks
    diskn ← get_elem? s.meta.data_disks disk_index
    copy_diskn ← get_elem? s.meta.copy_disks disk_index
    let row = suc (blkn / s.meta.num_of_disks)
    state ← at_disk s.meta.disk_state diskn
    if is_dead state
        then (do
          copy_state ← at_disk s.meta.disk_state copy_diskn
          if is_dead copy_state
              then some (failure, s)
              else (do s' ← read_user c copy_diskn row s; some (success, s')))
        else (do s' ← read_user c diskn row s; some (success, s'))

  -- `if(disk_state[diskn-1] != DEAD) { write_block(diskn, blkn, paddr_data); flag = 1; }`, with
  -- the flag returned.
  unfoldable pub write_if_alive : ℕ → ℕ → Array → Option (Bool × Array)
  unfolding write_user
  write_if_alive diskn row s = do
    state ← at_disk s.meta.disk_state diskn
    if is_dead state then some (false, s) else (do s' ← write_user c diskn row s; some (true, s'))

  unfoldable pub write_raid1 : ℕ → Array → Option (Ret × Array)
  unfolding write_if_alive
  write_raid1 blkn s = do
    divisor s.meta.num_of_disks
    let disk_index = blkn % s.meta.num_of_disks
    diskn ← get_elem? s.meta.data_disks disk_index
    copy_diskn ← get_elem? s.meta.copy_disks disk_index
    let row = suc (blkn / s.meta.num_of_disks)
    (flag, s') ← write_if_alive diskn row s
    (copy_flag, s'') ← write_if_alive copy_diskn row s'
    if flag
        then some (success, s'')
        else if copy_flag
        then some (success, s'')
        else some (failure, s'')

  -- The bodies of the RAID 0+1 functions are those of RAID 1.
  unfoldable pub read_raid01 : ℕ → Array → Option (Ret × Array)
  unfolding read_raid1
  read_raid01 blkn s = read_raid1 blkn s

  unfoldable pub write_raid01 : ℕ → Array → Option (Ret × Array)
  unfolding write_raid1
  write_raid01 blkn s = write_raid1 blkn s
