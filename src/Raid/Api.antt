-- ===== src/Raid/Api.antt =====
-- `read_raid` and `write_raid` of kernel/raid.c, and the system calls of kernel/sysraid.c.
pub mod Guards
pub mod Capacity
use raid_system.Prelude.{ℕ, Option, none, some, ltb, ◌==◌, if◌then◌else◌, ℤ, pos, negsuc}
use raid_system.Raid.State.{
  Config, RaidType, raid0, raid1, raid0_1, raid4, raid5, other, Array, Ret, failure,
}
use raid_system.Raid.Device.{◌>>=◌}
use raid_system.Raid.System.{Page, System, attach, detach, initialized}
use raid_system.Raid.Striped.{read_raid0, write_raid0}
use raid_system.Raid.Mirror.{read_raid1, write_raid1, read_raid01, write_raid01}
use raid_system.Raid.Parity.{read_raid4, write_raid4}
use raid_system.Raid.Rotating.{read_raid5, write_raid5}
use raid_system.Raid.Control.{}

module _ (c : Config) where
  -- The even entries of `raid_rw`. An index behind the table is out of bounds.
  unfoldable pub raid_read : RaidType → ℕ → Array → Option (Ret × Array)
  raid_read raid0 = read_raid0 c
  raid_read raid1 = read_raid1 c
  raid_read raid0_1 = read_raid01 c
  raid_read raid4 = read_raid4 c
  raid_read raid5 = read_raid5 c
  raid_read (other n) = λ blkn s. none

  -- The odd entries.
  unfoldable pub raid_write : RaidType → ℕ → Array → Option (Ret × Array)
  raid_write raid0 = write_raid0 c
  raid_write raid1 = write_raid1 c
  raid_write raid0_1 = write_raid01 c
  raid_write raid4 = write_raid4 c
  raid_write raid5 = write_raid5 c
  raid_write (other n) = λ blkn s. none

  -- The guards of both: the page and the block number if the call goes on.
  unfoldable pub checked_block : ℤ → ℕ → System → Option (Page × ℕ)
  checked_block (negsuc n) vaddr s = none
  checked_block (pos blkn) vaddr s = do
    p ← initialized s
    if ltb blkn p.meta.max_blocks then (if vaddr == 0 then none else some (p, blkn)) else none

  unfoldable pub read_raid : ℤ → ℕ → System → Option (Ret × System)
  unfolding raid_read checked_block
  read_raid blkn vaddr s = elim (checked_block blkn vaddr s) [
    | none ↦ some (failure, s)
    | some (p, b) ↦ (do (r, a) ← raid_read p.meta.type b (attach s p); some (r, detach s a))
  ]

  unfoldable pub write_raid : ℤ → ℕ → System → Option (Ret × System)
  unfolding raid_write checked_block
  write_raid blkn vaddr s = elim (checked_block blkn vaddr s) [
    | none ↦ some (failure, s)
    | some (p, b) ↦ (do (r, a) ← raid_write p.meta.type b (attach s p); some (r, detach s a))
  ]
