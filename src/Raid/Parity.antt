-- ===== src/Raid/Parity.antt =====
-- RAID 4 and RAID 5: the stripe cache and the parity functions of kernel/raid_rw.c.
-- `diskn - 1` of the source is written `d`.
pub mod Sum
pub mod Cache
pub mod Load
pub mod Recover
pub mod Volume
pub mod Read
pub mod Update
pub mod Put
pub mod Write
pub mod Raid4
pub mod Failure
use raid_system.Prelude.{ℕ, zero, suc, ◌/◌, ◌%◌, Option, some, leb, ◌==◌, if◌then◌else◌, get_elem?}
use raid_system.Raid.State.{
  Config, is_dead, raid4, zero_block, Array, CachedBlocks, Ret, success, failure,
}
use raid_system.Raid.Device.{
  ◌>>=◌, ◌>>◌, divisor, read_cached, write_cached, cached, store_cached, xor_cached,
}

-- `if(diskn == j) continue; cached_data_disks[diskn-1][i] ^= cached_data_disks[j-1][i];` for the
-- `n` disks from index `j` on. The source has the loop over the bytes outside.
unfoldable pub recover_from : ℕ → ℕ → ℕ → Array → Option Array
unfolding xor_cached
recover_from d zero j s = some s
recover_from d (suc n) j s = do
  s' ← if d == j then some s else xor_cached d j s
  recover_from d n (suc j) s'

unfoldable pub raid_tocache_recovery : ℕ → Array → Option Array
unfolding recover_from store_cached xor_cached
raid_tocache_recovery d s = do
  s' ← store_cached d zero_block s
  s'' ← recover_from d s.meta.num_of_disks 0 s'
  elim s.meta.type [ raid4 ↦ xor_cached d s.meta.parity_disk s'' | _ ↦ some s'' ]

-- `if(disk_state[diskn-1] == DEAD) raid_tocache_recovery(diskn);`
unfoldable pub recover_if_dead : ℕ → Array → Option Array
unfolding raid_tocache_recovery
recover_if_dead d s = do
  state ← get_elem? s.meta.disk_state d
  if is_dead state then raid_tocache_recovery d s else some s

-- memmove(paddr_data, cached_data_disks[diskn-1], BLOCKSIZE)
unfoldable pub copy_out : ℕ → Array → Option (Ret × Array)
unfolding cached
copy_out d s = do v ← cached d s; some (success, record s { user = record s.user { first = v } })

module _ (c : Config) where
  -- `if(disk_state[i] != DEAD) read_block(i+1, stripe, cached_data_disks[i]);`
  unfoldable pub read_if_alive : ℕ → ℕ → Array → Option Array
  unfolding read_cached
  read_if_alive i stripe s = do
    state ← get_elem? s.meta.disk_state i
    if is_dead state then some s else read_cached c i stripe s

  unfoldable pub cache_from : ℕ → ℕ → ℕ → Array → Option Array
  unfolding read_if_alive
  cache_from stripe zero i s = some s
  cache_from stripe (suc n) i s = do s' ← read_if_alive i stripe s; cache_from stripe n (suc i) s'

  abbrev pub set_cached_stripe : ℕ → Array → Array
  set_cached_stripe stripe s =
      let blocks : CachedBlocks = record s.meta.cache { stripe = stripe } in
      record s { meta = record s.meta { cache = blocks } }

  abbrev pub set_parity : ℕ → Array → Array
  set_parity p s =
      let blocks : CachedBlocks = record s.meta.cache { parity_cached = p } in
      record s { meta = record s.meta { cache = blocks; parity_disk = p } }

  unfoldable pub cache : ℕ → ℕ → Array → Option Array
  unfolding cache_from read_if_alive
  cache stripe p s = do
    s' ← cache_from stripe s.meta.num_of_disks 0 (set_cached_stripe stripe s)
    read_if_alive p stripe (set_parity p s')

  -- `if(disk_state[i] != DEAD) write_block(i+1, cache.stripe, cached_data_disks[i]);`
  unfoldable pub sync_if_alive : ℕ → Array → Option Array
  unfolding write_cached
  sync_if_alive i s = do
    state ← get_elem? s.meta.disk_state i
    if is_dead state then some s else write_cached c i s.meta.cache.stripe s

  unfoldable pub raid_write_updateparity_cache : ℕ → Array → Option Array
  unfolding xor_cached store_cached sync_if_alive
  raid_write_updateparity_cache d s = do
    let p = s.meta.cache.parity_cached
    s₁ ← xor_cached p d s
    s₂ ← store_cached d s.user.first s₁
    s₃ ← xor_cached p d s₂
    s₄ ← sync_if_alive p s₃
    sync_if_alive d s₄

  -- What RAID 4 and RAID 5 do alike once the stripe, the parity disk and the data disk are known.
  unfoldable pub read_stripe : ℕ → ℕ → ℕ → Array → Option (Ret × Array)
  unfolding cache recover_if_dead copy_out
  read_stripe stripe p d s =
      if s.meta.cache.stripe == stripe
      then (do s' ← recover_if_dead d s; copy_out d s')
      else (do s' ← cache stripe p s; s'' ← recover_if_dead d s'; copy_out d s'')

  unfoldable pub write_stripe : ℕ → ℕ → ℕ → Array → Option (Ret × Array)
  unfolding cache recover_if_dead raid_write_updateparity_cache
  write_stripe stripe p d s =
      if s.meta.cache.stripe == stripe
      then (do s' ← raid_write_updateparity_cache d s; some (success, s'))
      else (do
        s' ← cache stripe p s
        s'' ← recover_if_dead d s'
        s₃ ← raid_write_updateparity_cache d s''
        some (success, s₃))

  unfoldable pub read_raid4 : ℕ → Array → Option (Ret × Array)
  unfolding read_stripe
  read_raid4 blkn s =
      if leb s.meta.max_dead_disks s.meta.num_dead_disks then some (failure, s) else (do
        divisor s.meta.num_of_disks
        let d = blkn % s.meta.num_of_disks
        let stripe = suc (blkn / s.meta.num_of_disks)
        read_stripe stripe s.meta.parity_disk d s)

  unfoldable pub write_raid4 : ℕ → Array → Option (Ret × Array)
  unfolding write_stripe
  write_raid4 blkn s =
      if leb s.meta.max_dead_disks s.meta.num_dead_disks then some (failure, s) else (do
        divisor s.meta.num_of_disks
        let d = blkn % s.meta.num_of_disks
        let stripe = suc (blkn / s.meta.num_of_disks)
        write_stripe stripe s.meta.parity_disk d s)
