-- ===== src/Raid/System.antt =====
-- The RAID layer between two calls: the pointer `raid_metadata`, the disks, the page allocator
-- and the console; and `fetch` and `writeback` of kernel/raid_rw.c.
pub mod Laws
use Prim.Native.String.{String}
use raid_system.Prelude.{
  ℕ, zero, suc, true, false, Option, none, some, List, ◌==◌, if◌then◌else◌, get_elem?, set,
  replicate, tabulate,
}
use raid_system.Raid.State.{
  Config, page_slots, minus_one, is_dead, Block, Transfer, Raid, zero_raid, Array,
}
use raid_system.Raid.Device.{◌>>=◌, ◌>>◌, guard, on_device, update_disk}

-- The page that `raid_metadata` points to.
pub record Page : Type 0 where
  pub meta : Raid
  pub slots : List Block

-- `raid_metadata` is `none` for a null pointer. `free_pages` counts the pages that `kalloc` has
-- left, and `user` is the memory that the caller's address translates to.
pub record System : Type 0 where
  pub raid_metadata : Option Page
  pub disk : ℕ → ℕ → Transfer
  pub superblock : ℕ → Raid
  pub user : Transfer
  pub free_pages : ℕ
  pub console : List String

abbrev pub attach : System → Page → Array
attach s p = record {
  meta = p.meta;
  slots = p.slots;
  disk = s.disk;
  superblock = s.superblock;
  user = s.user;
}

abbrev pub detach : System → Array → System
detach s a = record s {
  raid_metadata = some (record { meta = a.meta; slots = a.slots });
  disk = a.disk;
  superblock = a.superblock;
  user = a.user;
}

abbrev pub set_page : System → Page → System
set_page s p = record s { raid_metadata = some p }

-- `raid_metadata == 0 || !raid_metadata->raid_initialized`, negated: the page if it is in use.
abbrev pub initialized : System → Option Page
initialized s = elim s.raid_metadata [
  | none ↦ none
  | some p ↦ if p.meta.raid_initialized == 0 then none else some p
]

-- `kalloc`; a null result is written through at once by both callers, which faults.
unfoldable pub alloc_page : System → Option System
alloc_page s = elim s.free_pages [ zero ↦ none | suc n ↦ some (record s { free_pages = n }) ]

module _ (c : Config) where
  -- A page whose bytes are all `b`, as `struct raid` reads at 0.
  abbrev pub filled_page : ℕ → Page
  filled_page b = record { meta = zero_raid c; slots = replicate page_slots (λ i. b) }

  -- read_block(i, 0, data)
  unfoldable pub read_meta : ℕ → System → Page → Option Page
  read_meta i s p = do
    guard (on_device c i 0)
    some (record { meta = s.superblock i; slots = set p.slots 0 (s.disk i 0).second })

  -- write_block(i, 0, raid_metadata)
  unfoldable pub write_meta : ℕ → Page → System → Option System
  write_meta i p s = do
    guard (on_device c i 0)
    behind ← get_elem? p.slots 0
    let t : Transfer = record { first = (s.disk i 0).first; second = behind }
    some (record s {
      superblock = λ d. if d == i then p.meta else s.superblock d;
      disk = update_disk s.disk i 0 t;
    })

  -- The loop of `fetch`, with the disks from `i` on: it goes on while `disk_state[i]` is DEAD.
  unfoldable pub fetch_from : ℕ → ℕ → System → Page → Option Page
  unfolding read_meta
  fetch_from zero i s p = some p
  fetch_from (suc n) i s p = do
    p' ← read_meta i s p
    state ← get_elem? p'.meta.disk_state i
    elim (is_dead state) [ true ↦ fetch_from n (suc i) s p' | false ↦ some p' ]

  -- The cache is not valid, and its pointers are those of the page.
  abbrev pub reset_cache : Raid → Raid
  reset_cache m = record m {
    cache = record {
      stripe = minus_one;
      parity_cached = minus_one;
      cached_data_disks = tabulate c.disks 0 (λ i. i);
    };
  }

  unfoldable pub fetch : System → Option (Page × System)
  unfolding alloc_page fetch_from
  fetch s = elim (initialized s) [
    | some p ↦ some (p, s)
    | none ↦ (do
      s' ← alloc_page s
      p ← fetch_from c.disks 1 s' (filled_page 0)
      let p' : Page = record p { meta = reset_cache p.meta }
      some (p', set_page s' p'))
  ]

  -- `writeback`: from disk `i + 1` on.
  unfoldable pub writeback_from : ℕ → ℕ → Page → System → Option System
  unfolding write_meta
  writeback_from zero i p s = some s
  writeback_from (suc n) i p s = do
    state ← get_elem? p.meta.disk_state i
    s' ← if is_dead state then some s else write_meta (suc i) p s
    writeback_from n (suc i) p s'

  -- `writeback` with `raid_metadata` pointing to the page.
  unfoldable pub writeback : Page → System → Option System
  unfolding writeback_from
  writeback p s = writeback_from c.disks 0 p (set_page s p)
