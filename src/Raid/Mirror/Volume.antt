-- ===== src/Raid/Mirror/Volume.antt =====
-- RAID 1 and RAID 0+1 as a volume that two disks hold.
use raid_system.Prelude.{
  ℕ, zero, suc, ◌-◌, ◌/◌, ◌%◌, ◌≤◌, ◌<◌, ◌≡◌, ◌≢◌, refl, ap, false, true, some, arith, length,
  get_or, get_elem?-eq-get_or, ◌==◌, if◌then◌else◌, mod-lt_ne,
}
use raid_system.Raid.State.{Config, bsize, DiskState, dead, is_dead, Raid, Array, Transfer, success}
use raid_system.Raid.Device.{at_disk, divisor_ne, on_device, update_disk, read_user, write_user}
use raid_system.Raid.Mirror.{read_raid1, write_raid1, write_if_alive}

abbrev pub data_at : Raid → ℕ → ℕ
data_at m i = get_or m.data_disks i 0

abbrev pub copy_at : Raid → ℕ → ℕ
copy_at m i = get_or m.copy_disks i 0

-- The state of disk `d`, numbered from 1.
abbrev pub state_of : Raid → ℕ → DiskState
state_of m d = get_or m.disk_state (d - 1) dead

abbrev pub IsDisk : Config → ℕ → Type 0
IsDisk c d = (0 < d) × (d ≤ c.disks)

-- The block of a disk at which logical block `b` stands.
abbrev pub row_of : Raid → ℕ → ℕ
row_of m b = suc (b / m.num_of_disks)

abbrev pub column_of : Raid → ℕ → ℕ
column_of m b = b % m.num_of_disks

-- The arrays of a mirrored set.
pub record IsMirrored (c : Config) (m : Raid) : Type 0 where
  pub some_disks : m.num_of_disks ≢ 0
  pub states : length m.disk_state ≡ c.disks
  pub data_size : length m.data_disks ≡ m.num_of_disks
  pub copy_size : length m.copy_disks ≡ m.num_of_disks

-- Every column can be read: its primary is alive and holds the blocks of the volume.
pub record Readable (c : Config) (v : ℕ → Transfer) (s : Array) : Type 0 where
  pub layout : IsMirrored c s.meta
  pub data_disk : (i : ℕ) → i < s.meta.num_of_disks → IsDisk c (data_at s.meta i)
  pub data_alive :
      (i : ℕ) → i < s.meta.num_of_disks → is_dead (state_of s.meta (data_at s.meta i)) ≡ false
  pub stored_data : (b : ℕ) → s.disk (data_at s.meta (column_of s.meta b)) (row_of s.meta b) ≡ v b

-- Every column has a copy too, on a disk of its own.
pub record Mirrors (c : Config) (v : ℕ → Transfer) (s : Array) : Type 0 where
  pub readable : Readable c v s
  pub copy_disk : (i : ℕ) → i < s.meta.num_of_disks → IsDisk c (copy_at s.meta i)
  pub copy_alive :
      (i : ℕ) → i < s.meta.num_of_disks → is_dead (state_of s.meta (copy_at s.meta i)) ≡ false
  pub stored_copy : (b : ℕ) → s.disk (copy_at s.meta (column_of s.meta b)) (row_of s.meta b) ≡ v b
  pub data_inj :
      (i j : ℕ)
      → i < s.meta.num_of_disks
      → j < s.meta.num_of_disks
      → data_at s.meta i ≡ data_at s.meta j
      → i ≡ j
  pub copy_inj :
      (i j : ℕ)
      → i < s.meta.num_of_disks
      → j < s.meta.num_of_disks
      → copy_at s.meta i ≡ copy_at s.meta j
      → i ≡ j
  pub data-ne-copy :
      (i j : ℕ)
      → i < s.meta.num_of_disks
      → j < s.meta.num_of_disks
      → data_at s.meta i ≢ copy_at s.meta j

on_device-disk :
    (c : Config) (d b : ℕ) → IsDisk c d → b < c.disk_size / bsize → on_device c d b ≡ true
on_device-disk c d b h fits = ground arith

at_disk-state_of :
    (c : Config) (m : Raid) (d : ℕ)
    → length m.disk_state ≡ c.disks
    → IsDisk c d
    → at_disk m.disk_state d ≡ some (state_of m d)
at_disk-state_of c m zero e h = absurd (omega arith)
at_disk-state_of c m (suc i) e h =
    let index : suc i - 1 ≡ i = omega arith in
    rw index (get_elem?-eq-get_or m.disk_state i dead (omega arith))

module _ (c : Config) (v : ℕ → Transfer) (s : Array) (r : Readable c v s) (blkn : ℕ)
    (fits : row_of s.meta blkn < c.disk_size / bsize) where
  abbrev i : ℕ
  i = column_of s.meta blkn

  i_in : i < s.meta.num_of_disks
  i_in = mod-lt_ne blkn s.meta.num_of_disks r.layout.some_disks

  -- `read_raid1` of a block succeeds and gives the block of the volume, and changes nothing but
  -- the caller's buffer, if its row lies on the disks. A copy need not be there.
  pub read_raid1_lem : read_raid1 c blkn s ≡ some (success, record s { user = v blkn })
  unfolding read_raid1 read_user
  read_raid1_lem =
      rw
        (
          divisor_ne s.meta.num_of_disks r.layout.some_disks,
          get_elem?-eq-get_or s.meta.data_disks i 0 (rw r.layout.data_size i_in),
          get_elem?-eq-get_or s.meta.copy_disks i 0 (rw r.layout.copy_size i_in),
          at_disk-state_of c s.meta (data_at s.meta i) r.layout.states (r.data_disk i i_in),
          r.data_alive i i_in,
          on_device-disk c (data_at s.meta i) (row_of s.meta blkn) (r.data_disk i i_in) fits,
        )
        (ap (λ t. some (success, record s { user = t })) (r.stored_data blkn))

pub write_if_alive_lem :
    (c : Config) (s : Array) (d b : ℕ)
    → length s.meta.disk_state ≡ c.disks
    → IsDisk c d
    → b < c.disk_size / bsize
    → is_dead (state_of s.meta d) ≡ false
    → write_if_alive c d b s ≡ some (true, record s { disk = update_disk s.disk d b s.user })
unfolding write_if_alive write_user
write_if_alive_lem c s d b e h fits alive =
    rw (at_disk-state_of c s.meta d e h, alive, on_device-disk c d b h fits)

-- The two writes of a block.
abbrev pub mirrored_disk : Array → ℕ → ℕ → ℕ → Transfer
mirrored_disk s blkn =
    let i = column_of s.meta blkn in
    let b = row_of s.meta blkn in
    update_disk (update_disk s.disk (data_at s.meta i) b s.user) (copy_at s.meta i) b s.user

module _ (c : Config) (v : ℕ → Transfer) (s : Array) (h : Mirrors c v s) (blkn : ℕ)
    (fits : row_of s.meta blkn < c.disk_size / bsize) where
  write_raid1_lem : write_raid1 c blkn s ≡ some (success, record s { disk = mirrored_disk s blkn })
  unfolding write_raid1
  write_raid1_lem =
      let r = h.readable in
      let i = column_of s.meta blkn in
      let b = row_of s.meta blkn in
      let i_in : i < s.meta.num_of_disks = mod-lt_ne blkn s.meta.num_of_disks r.layout.some_disks in
      rw (
        divisor_ne s.meta.num_of_disks r.layout.some_disks,
        get_elem?-eq-get_or s.meta.data_disks i 0 (rw r.layout.data_size i_in),
        get_elem?-eq-get_or s.meta.copy_disks i 0 (rw r.layout.copy_size i_in),
        write_if_alive_lem c s (data_at s.meta i) b r.layout.states (r.data_disk i i_in) fits
            (r.data_alive i i_in),
        write_if_alive_lem c (record s { disk = update_disk s.disk (data_at s.meta i) b s.user })
            (copy_at s.meta i) b r.layout.states (h.copy_disk i i_in) fits (h.copy_alive i i_in),
      )

-- Different blocks of the array stand in different columns or rows.
address_inj : (n a b : ℕ) → n ≢ 0 → a % n ≡ b % n → suc (a / n) ≡ suc (b / n) → a ≡ b
address_inj n a b ne p q = grind arith

-- `v` with block `a` replaced.
abbrev pub put : ℕ → Transfer → (ℕ → Transfer) → ℕ → Transfer
put a t v b = if a == b then t else v b

module _ (c : Config) (v : ℕ → Transfer) (s : Array) (h : Mirrors c v s) (blkn : ℕ) where
  in_column : (b : ℕ) → column_of s.meta b < s.meta.num_of_disks
  in_column b = mod-lt_ne b s.meta.num_of_disks h.readable.layout.some_disks

  written-data :
      (b : ℕ)
      → mirrored_disk s blkn (data_at s.meta (column_of s.meta b)) (row_of s.meta b)
        ≡ put blkn s.user v b
  written-data b = ground (
    arith,
    h.readable.stored_data b,
    h.data_inj (column_of s.meta b) (column_of s.meta blkn) (in_column b) (in_column blkn),
    h.data-ne-copy (column_of s.meta b) (column_of s.meta blkn) (in_column b) (in_column blkn),
    address_inj s.meta.num_of_disks blkn b h.readable.layout.some_disks,
  )

  written-copy :
      (b : ℕ)
      → mirrored_disk s blkn (copy_at s.meta (column_of s.meta b)) (row_of s.meta b)
        ≡ put blkn s.user v b
  written-copy b = ground (
    arith,
    h.stored_copy b,
    h.copy_inj (column_of s.meta b) (column_of s.meta blkn) (in_column b) (in_column blkn),
    h.data-ne-copy (column_of s.meta blkn) (column_of s.meta b) (in_column blkn) (in_column b),
    address_inj s.meta.num_of_disks blkn b h.readable.layout.some_disks,
  )

  -- With both disks of every column alive, `write_raid1` of a block in a row that lies on the
  -- disks succeeds, both disks of the column hold the caller's 1024 bytes afterwards, and every
  -- other block of the volume is as it was.
  pub write_raid1-Mirrors :
      row_of s.meta blkn < c.disk_size / bsize
      → (s' : Array) × (write_raid1 c blkn s ≡ some (success, s'))
        × (s'.meta ≡ s.meta)
        × Mirrors c (put blkn s.user v) s'
  write_raid1-Mirrors fits = (
    record s { disk = mirrored_disk s blkn },
    write_raid1_lem c v s h blkn fits,
    refl,
    record {
      readable = record {
        layout = h.readable.layout;
        data_disk = h.readable.data_disk;
        data_alive = h.readable.data_alive;
        stored_data = written-data;
      };
      copy_disk = h.copy_disk;
      copy_alive = h.copy_alive;
      stored_copy = written-copy;
      data_inj = h.data_inj;
      copy_inj = h.copy_inj;
      data-ne-copy = h.data-ne-copy;
    },
  )
