-- ===== src/Raid/Device.antt =====
-- `read_block` and `write_block` of kernel/virtio_disk.c, as they are called on the caller's
-- buffer and on the slots of the metadata page, and the accesses to the arrays of `struct raid`.
-- `none` is an access out of an array or out of the page, or the panic of `virtio_disk_intr` when
-- the device refuses a block behind its end.
use raid_system.Prelude.{
  ◌≡◌, ◌≢◌, refl, ℕ, zero, suc, ◌+◌, ◌/◌, Bool, ◌&&◌, Option, none, some, List, ltb, ◌==◌,
  if◌then◌else◌, get_elem?, set,
}
pub use raid_system.Prelude.{◌>>=◌, ◌>>◌, guard}
use raid_system.Raid.State.{Config, bsize, Block, Transfer, xor_block, Array}

-- A divisor; division by 0 is undefined.
abbrev pub divisor : ℕ → Option (Unit {0})
divisor zero = none
divisor (suc n) = some tt

pub divisor_ne : (n : ℕ) → n ≢ 0 → divisor n ≡ some tt
divisor_ne zero h = absurd (h refl)
divisor_ne (suc n) h = refl

-- The element of a C array at `diskn - 1`.
abbrev pub at_disk {ℓ} : {A : Type ℓ} → List A → ℕ → Option A
at_disk xs zero = none
at_disk xs (suc i) = get_elem? xs i

abbrev pub update_disk : (ℕ → ℕ → Transfer) → ℕ → ℕ → Transfer → ℕ → ℕ → Transfer
update_disk f d b t d' b' = if d' == d && b' == b then t else f d' b'

module _ (c : Config) where
  -- `transfer_buffer[diskn]` exists, and the device has the block.
  abbrev pub on_device : ℕ → ℕ → Bool
  on_device d b = ltb 0 d && (ltb d (c.disks + 1) && ltb b (c.disk_size / bsize))

  -- read_block(diskn, blockno, paddr_data)
  unfoldable pub read_user : ℕ → ℕ → Array → Option Array
  read_user d b s = do guard (on_device d b); some (record s { user = s.disk d b })

  -- write_block(diskn, blockno, paddr_data)
  unfoldable pub write_user : ℕ → ℕ → Array → Option Array
  write_user d b s = do
    guard (on_device d b)
    some (record s { disk = update_disk s.disk d b s.user })

  -- read_block(i + 1, stripe, cached_data_disks[i]): the slot and the one behind it.
  unfoldable pub read_cached : ℕ → ℕ → Array → Option Array
  read_cached i b s = do
    k ← get_elem? s.meta.cache.cached_data_disks i
    guard (on_device (suc i) b)
    get_elem? s.slots (suc k)
    let t = s.disk (suc i) b
    some (record s { slots = set (set s.slots k t.first) (suc k) t.second })

  -- write_block(i + 1, stripe, cached_data_disks[i])
  unfoldable pub write_cached : ℕ → ℕ → Array → Option Array
  write_cached i b s = do
    k ← get_elem? s.meta.cache.cached_data_disks i
    guard (on_device (suc i) b)
    first ← get_elem? s.slots k
    second ← get_elem? s.slots (suc k)
    some (record s {
      disk = update_disk s.disk (suc i) b (record { first = first; second = second });
    })

-- The block that `cached_data_disks[i]` points to.
unfoldable pub cached : ℕ → Array → Option Block
cached i s = do k ← get_elem? s.meta.cache.cached_data_disks i; get_elem? s.slots k

-- A write of all bytes through `cached_data_disks[i]`.
unfoldable pub store_cached : ℕ → Block → Array → Option Array
store_cached i v s = do
  k ← get_elem? s.meta.cache.cached_data_disks i
  get_elem? s.slots k
  some (record s { slots = set s.slots k v })

-- `cached_data_disks[i][...] ^= cached_data_disks[j][...]`, at every offset.
unfoldable pub xor_cached : ℕ → ℕ → Array → Option Array
unfolding cached store_cached
xor_cached i j s = do a ← cached i s; b ← cached j s; store_cached i (xor_block a b) s
