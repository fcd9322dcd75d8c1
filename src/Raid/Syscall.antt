-- ===== src/Raid/Syscall.antt =====
-- The system calls of kernel/sysraid.c, with the arguments that `argint` and `argaddr` fetch.
use Prim.Native.String.{String}
use raid_system.Prelude.{ℕ, zero, suc, ◌-◌, ◌^◌, Option, some, ℤ}
use raid_system.Raid.State.{
  Config, RaidType, raid0, raid1, raid0_1, raid4, raid5, other, Ret, success, failure,
}
use raid_system.Raid.Device.{◌>>=◌}
use raid_system.Raid.System.{System}
use raid_system.Raid.Control.{
  print, Info, init_raid, info_raid, disk_fail_raid, disk_repaired_raid, destroy_raid,
}
use raid_system.Raid.Api.{read_raid, write_raid}

-- The `uint64` of a returned `int`.
abbrev pub ret_value : Ret → ℕ
ret_value success = 0
ret_value failure = 2 ^ 64 - 1

-- An `int` passed for an `enum RAID_TYPE`.
abbrev pub raid_type_of : ℕ → RaidType
raid_type_of zero = raid0
raid_type_of (suc zero) = raid1
raid_type_of (suc (suc zero)) = raid0_1
raid_type_of (suc (suc (suc zero))) = raid4
raid_type_of (suc (suc (suc (suc zero)))) = raid5
raid_type_of (suc (suc (suc (suc (suc n))))) = other (suc (suc (suc (suc (suc n)))))

-- `if(ret == -1) printf(text); return ret;`
abbrev pub report : String → Ret → System → ℕ × System
report text success s = (0, s)
report text failure s = (2 ^ 64 - 1, print text s)

module _ (c : Config) where
  unfoldable pub sys_init_raid : ℕ → System → Option (ℕ × System)
  unfolding init_raid
  sys_init_raid raid s = do (ret, s') ← init_raid c (raid_type_of raid) s; some (ret_value ret, s')

  unfoldable pub sys_read_raid : ℤ → ℕ → System → Option (ℕ × System)
  unfolding read_raid
  sys_read_raid blkn addr s = do
    (ret, s') ← read_raid c blkn addr s
    some (report "can't read\n" ret s')

  unfoldable pub sys_write_raid : ℤ → ℕ → System → Option (ℕ × System)
  unfolding write_raid
  sys_write_raid blkn addr s = do
    (ret, s') ← write_raid c blkn addr s
    some (report "can't write\n" ret s')

  unfoldable pub sys_info_raid : System → Option (ℕ × Option Info × System)
  unfolding info_raid
  sys_info_raid s = do
    (ret, info, s') ← info_raid c s
    let (value, s'') = report "raid not initialized\n" ret s'
    some (value, info, s'')

  unfoldable pub sys_disk_fail_raid : ℤ → System → Option (ℕ × System)
  unfolding disk_fail_raid
  sys_disk_fail_raid diskn s = do
    (ret, s') ← disk_fail_raid c diskn s
    some (report "disk doesn't exist\n" ret s')

  unfoldable pub sys_disk_repaired_raid : ℤ → System → Option (ℕ × System)
  unfolding disk_repaired_raid
  sys_disk_repaired_raid diskn s = do
    (ret, s') ← disk_repaired_raid c diskn s
    some (report "disk doesn't exist\n" ret s')

  unfoldable pub sys_destroy_raid : System → Option (ℕ × System)
  unfolding destroy_raid
  sys_destroy_raid s = do (ret, s') ← destroy_raid c s; some (ret_value ret, s')
