-- ===== src/Raid/Control.antt =====
-- kernel/raid.c but for reading and writing: `init_raid`, `info_raid`, `disk_fail_raid`,
-- `disk_repaired_raid` and `destroy_raid`.
pub mod Guards
pub mod Capacity
pub mod Persist
pub mod Lifecycle
pub mod Reserve
use Prim.Native.String.{String}
use raid_system.Prelude.{
  ℕ, zero, suc, ◌+◌, ◌-◌, ◌/◌, ◌%◌, ◌||◌, not, Option, none, some, [], ◌∷◌, ◌++◌, leb, ◌==◌,
  if◌then◌else◌, get_elem?, set, tabulate, ℤ, pos, negsuc,
}
use raid_system.Raid.State.{
  Config, blocksize, sub_uint, mul_uint, minus_one, is_dead, RaidType, raid0, raid1, raid0_1, raid4,
  raid5, other, CachedBlocks, Raid, Ret, success, failure,
}
use raid_system.Raid.Device.{◌>>=◌}
use raid_system.Raid.Places.{fail_disk, repair_disk}
use raid_system.Raid.System.{
  Page, System, set_page, initialized, alloc_page, filled_page, read_meta, write_meta, fetch,
  writeback,
}

abbrev pub print : String → System → System
print text s = record s { console = s.console ++ (text ∷ []) }

-- `case RAID5` prints an empty line.
abbrev pub announce : RaidType → System → System
announce raid5 s = print "\n" s
announce raid s = s

-- What `info_raid` stores through its three pointers.
pub record Info : Type 0 where
  pub blkn : ℕ
  pub blks : ℕ
  pub diskn : ℕ

module _ (c : Config) where
  -- `DISK_SIZE/BLOCKSIZE - 1`
  abbrev pub blocks_per_disk : ℕ
  blocks_per_disk = sub_uint (c.disk_size / blocksize) 1

  -- The fields that every type gets.
  abbrev pub init_common : RaidType → Raid → Raid
  init_common raid m = record m {
    raid_initialized = 1;
    type = raid;
    block_size = blocksize;
    num_of_disks = c.disks;
    num_dead_disks = 0;
    reserve_disk = minus_one;
    max_blocks = mul_uint c.disks blocks_per_disk;
  }

  -- `case RAID1`, into which `case RAID0_1` falls through.
  abbrev pub init_mirror : Raid → Raid
  init_mirror m =
      let reserve = if c.disks % 2 == 0 then minus_one else c.disks in
      record m {
        num_of_disks = c.disks / 2;
        reserve_disk = reserve;
        max_dead_disks = if reserve == minus_one then c.disks / 2 + 1 else c.disks / 2 + 2;
        data_disks = tabulate (c.disks / 2) 0 (λ i. i + 1);
        copy_disks = tabulate (c.disks / 2) 0 (λ i. i + 1 + c.disks / 2);
        max_blocks = mul_uint (c.disks / 2) blocks_per_disk;
      }

  -- The `switch` of `init_raid`.
  unfoldable pub init_switch : RaidType → Raid → Raid
  init_switch raid0 m = m
  init_switch raid1 m = init_mirror m
  init_switch raid0_1 m = init_mirror (record m { stripe_cursor = minus_one })
  init_switch raid4 m = record m {
    max_dead_disks = 2;
    parity_disk = c.disks - 1;
    num_of_disks = sub_uint m.num_of_disks 1;
  }
  init_switch raid5 m = record m { max_dead_disks = 2 }
  init_switch (other n) m = m

  -- `cached_data_disks[i] = raid_metadata + BLOCKSIZE * (i+1)`
  abbrev pub set_pointer : ℕ → Page → Page
  set_pointer i p =
      let blocks : CachedBlocks = record p.meta.cache {
        cached_data_disks = set p.meta.cache.cached_data_disks i i;
      } in
      record p { meta = record p.meta { cache = blocks } }

  -- The last loop of `init_raid`, from disk `i + 1` on.
  unfoldable pub init_disks : ℕ → ℕ → Page → System → Option System
  unfolding write_meta
  init_disks zero i p s = some s
  init_disks (suc n) i p s = do
    let p' = set_pointer i p
    s' ← write_meta c (suc i) p' (set_page s p')
    init_disks n (suc i) p' s'

  unfoldable pub init_raid : RaidType → System → Option (Ret × System)
  unfolding fetch init_switch init_disks
  init_raid raid s = do
    (p, s') ← fetch c s
    let p' : Page = record p { meta = init_switch raid (init_common raid p.meta) }
    let s'' = announce raid s'
    s₃ ← init_disks c.disks 0 p' (set_page s'' p')
    some (success, s₃)

  unfoldable pub info_raid : System → Option (Ret × Option Info × System)
  unfolding fetch
  info_raid s = do
    (p, s') ← fetch c s
    let m = p.meta
    if m.raid_initialized == 0
        then some (failure, none, s')
        else some (
          success,
          some (record { blkn = m.max_blocks; blks = m.block_size; diskn = m.num_of_disks }),
          s',
        )

  -- The guards of both calls: the page and the disk number if the call goes on.
  abbrev pub checked_disk : ℤ → System → Option (Page × ℕ)
  checked_disk (negsuc n) s = none
  checked_disk (pos diskn) s = do
    p ← initialized s
    if diskn == 0 || not (leb diskn c.disks) then none else some (p, diskn)

  -- The new metadata, written to the page and to the disks.
  abbrev pub commit_meta : Page → System → Option Raid → Option (Ret × System)
  commit_meta p s new = do m ← new; s' ← writeback c (record p { meta = m }) s; some (success, s')

  unfoldable pub disk_fail_raid : ℤ → System → Option (Ret × System)
  unfolding fail_disk writeback
  disk_fail_raid diskn s = elim (checked_disk diskn s) [
    | none ↦ some (failure, s)
    | some (p, d) ↦ (do
      state ← get_elem? p.meta.disk_state (d - 1)
      if is_dead state then some (success, s) else commit_meta p s (fail_disk c d p.meta))
  ]

  unfoldable pub disk_repaired_raid : ℤ → System → Option (Ret × System)
  unfolding repair_disk writeback
  disk_repaired_raid diskn s = elim (checked_disk diskn s) [
    | none ↦ some (failure, s)
    | some (p, d) ↦ (do
      state ← get_elem? p.meta.disk_state (d - 1)
      if is_dead state then commit_meta p s (repair_disk d p.meta) else some (success, s))
  ]

  -- The first `if` of `destroy_raid`: the metadata of disk 1, unless some is in use.
  unfoldable pub destroy_fetch : System → Option System
  unfolding alloc_page read_meta
  destroy_fetch s = elim (initialized s) [
    | some p ↦ some s
    | none ↦ (do s' ← alloc_page s; p ← read_meta c 1 s' (filled_page c 5); some (set_page s' p))
  ]

  unfoldable pub destroy_raid : System → Option (Ret × System)
  unfolding destroy_fetch writeback
  destroy_raid s = do
    s' ← destroy_fetch s
    elim (initialized s') [
      | none ↦ some (success, s')
      | some p ↦ (do
        s'' ← writeback c (filled_page c 0) s'
        some (success, record s'' { raid_metadata = none; free_pages = s''.free_pages + 1 }))
    ]
