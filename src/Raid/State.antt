-- ===== src/Raid/State.antt =====
-- The data of kernel/raid.h, and the memory and disks that kernel/raid_rw.c works on.
use raid_system.Prelude.{
  ℕ, ◌+◌, ◌-◌, ◌*◌, ◌/◌, ◌%◌, ◌^◌, Bool, true, false, List, bit_xor, replicate,
}

-- The macros that the Makefile passes: the number of RAID disks, and the bytes of each.
pub record Config : Type 0 where
  pub disks : ℕ
  pub disk_size : ℕ

-- `BLOCKSIZE` of raid.h, `BSIZE` of fs.h and `PGSIZE` of riscv.h.
abbrev pub blocksize : ℕ
blocksize = 512

abbrev pub bsize : ℕ
bsize = 1024

-- The blocks of a page behind the one that holds `struct raid`.
abbrev pub page_slots : ℕ
page_slots = 7

-- A sum, a difference and a product of two `uint`.
abbrev pub add_uint : ℕ → ℕ → ℕ
add_uint a b = (a + b) % 2 ^ 32

abbrev pub sub_uint : ℕ → ℕ → ℕ
sub_uint a b = (a + 2 ^ 32 - b) % 2 ^ 32

abbrev pub mul_uint : ℕ → ℕ → ℕ
mul_uint a b = a * b % 2 ^ 32

-- -1 as it is kept in a `uint`.
abbrev pub minus_one : ℕ
minus_one = 2 ^ 32 - 1

-- `enum dstate`.
pub data DiskState : Type 0 where
  alive dead repaired : DiskState

-- `disk_state[...] == DEAD`.
abbrev pub is_dead : DiskState → Bool
is_dead alive = false
is_dead dead = true
is_dead repaired = false

-- `enum RAID_TYPE`; a system call can pass any other number.
pub data RaidType : Type 0 where
  raid0 raid1 raid0_1 raid4 raid5 : RaidType
  other : ℕ → RaidType

-- The 512 bytes of a block, as a function of the offset.
abbrev pub Block : Type 0
Block = ℕ → ℕ

abbrev pub zero_block : Block
zero_block = λ i. 0

-- `a[i] ^= b[i]` for every offset.
abbrev pub xor_block : Block → Block → Block
xor_block a b = λ i. bit_xor (a i) (b i)

-- The 1024 bytes that the disk driver moves at once.
pub record Transfer : Type 0 where
  pub first : Block
  pub second : Block

abbrev pub zero_transfer : Transfer
zero_transfer = record { first = zero_block; second = zero_block }

-- `struct cached_blocks`. A pointer into the metadata page is the number of its slot, 0 for the
-- block just behind `struct raid`.
pub record CachedBlocks : Type 0 where
  pub stripe : ℕ
  pub parity_cached : ℕ
  pub cached_data_disks : List ℕ

-- `struct raid`.
pub record Raid : Type 0 where
  pub raid_initialized : ℕ
  pub type : RaidType
  pub num_of_disks : ℕ
  pub block_size : ℕ
  pub max_blocks : ℕ
  pub num_dead_disks : ℕ
  pub max_dead_disks : ℕ
  pub disk_state : List DiskState
  pub data_disks : List ℕ
  pub copy_disks : List ℕ
  pub reserve_disk : ℕ
  pub stripe_cursor : ℕ
  pub parity_disk : ℕ
  pub cache : CachedBlocks

-- `struct raid` when all its bytes are 0, as on a blank disk.
abbrev pub zero_raid : Config → Raid
zero_raid c = record {
  raid_initialized = 0;
  type = raid0;
  num_of_disks = 0;
  block_size = 0;
  max_blocks = 0;
  num_dead_disks = 0;
  max_dead_disks = 0;
  disk_state = replicate c.disks alive;
  data_disks = replicate (c.disks / 2) 0;
  copy_disks = replicate (c.disks / 2) 0;
  reserve_disk = 0;
  stripe_cursor = 0;
  parity_disk = 0;
  cache = record { stripe = 0; parity_cached = 0; cached_data_disks = replicate c.disks 0 };
}

-- What an operation sees once `raid_metadata` points to a page: that page, the disks by disk and
-- block number, and the caller's buffer. The first half of block 0 of a disk holds a `struct raid`
-- and is kept apart, in `superblock`.
pub record Array : Type 0 where
  pub meta : Raid
  pub slots : List Block
  pub disk : ℕ → ℕ → Transfer
  pub superblock : ℕ → Raid
  pub user : Transfer

-- The `int` that an operation returns, 0 or -1.
pub data Ret : Type 0 where
  success failure : Ret
