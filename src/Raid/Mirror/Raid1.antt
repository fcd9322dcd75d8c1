-- ===== src/Raid/Mirror/Raid1.antt =====
-- RAID 1 as a volume that outlives the failure of a disk.
use raid_system.Prelude.{
  ℕ, suc, ◌/◌, ◌%◌, ◌<◌, ◌≡◌, inl, inr, refl, ap, ◌∙◌, sym, subst, none, some, if◌then◌else◌, ◌==◌,
}
use raid_system.Raid.State.{Config, bsize, minus_one, raid1, Raid, Array, Transfer, success}
use raid_system.Raid.Places.{fail_disk}
use raid_system.Raid.Mirror.{read_raid1, write_raid1}
use raid_system.Raid.Mirror.Volume.{
  copy_at, row_of, column_of, Readable, Mirrors, put, read_raid1_lem, write_raid1-Mirrors,
}
use raid_system.Raid.Mirror.Failure.{promoted, bared, fail_disk-primary, fail_disk-copy}
use raid_system.Raid.Mirror.Survives.{
  Serves, promoted-Readable, bared-Readable, promoted-copy, bared-copy, write_raid1-no_copy,
}

-- The metadata after one of the two disks of column `i` was reported dead.
pub record Fails (c : Config) (v : ℕ → Transfer) (s : Array) (i d : ℕ) : Type 0 where
  pub after : Raid
  pub returns : fail_disk c d s.meta ≡ some after
  pub readable : Readable c v (record s { meta = after })
  pub no_copy : copy_at after i ≡ minus_one
  pub same_count : after.num_of_disks ≡ s.meta.num_of_disks

-- In a mirrored set without a reserve disk, all disks alive, the call's change of the metadata
-- for either disk of a column succeeds. Every block can still be read from a primary that is
-- alive, and the column is left without a copy.
pub fail_disk-Fails :
    (c : Config) (v : ℕ → Transfer) (s : Array) (i d : ℕ)
    → Mirrors c v s
    → s.meta.type ≡ raid1
    → s.meta.reserve_disk ≡ minus_one
    → i < s.meta.num_of_disks
    → Serves s.meta i d
    → Fails c v s i d
fail_disk-Fails c v s i d h is_raid1 bare i_in (inl e) = record {
  after = promoted i s.meta;
  returns = ap (λ x. fail_disk c x s.meta) e ∙ fail_disk-primary c v s h is_raid1 bare i i_in;
  readable = promoted-Readable c v s h i i_in;
  no_copy = promoted-copy c v s h i i_in;
  same_count = refl;
}
fail_disk-Fails c v s i d h is_raid1 bare i_in (inr e) = record {
  after = bared i s.meta;
  returns = ap (λ x. fail_disk c x s.meta) e ∙ fail_disk-copy c v s h is_raid1 bare i i_in;
  readable = bared-Readable c v s h i i_in;
  no_copy = bared-copy c v s h i i_in;
  same_count = refl;
}

-- What `write_raid1` wrote is read by `read_raid1` after the failure of any one disk, and so is
-- every other block as it was: all three calls succeed in a set without a reserve disk whose
-- disks are all alive, for blocks in rows that lie on the disks.
pub read_raid1-fail_disk-write_raid1 :
    (c : Config) (v : ℕ → Transfer) (s : Array) (a b i d : ℕ)
    → Mirrors c v s
    → s.meta.type ≡ raid1
    → s.meta.reserve_disk ≡ minus_one
    → row_of s.meta a < c.disk_size / bsize
    → row_of s.meta b < c.disk_size / bsize
    → i < s.meta.num_of_disks
    → Serves s.meta i d
    → (s' : Array) × (m : Raid) × (s'' : Array) × (write_raid1 c a s ≡ some (success, s'))
      × (fail_disk c d s'.meta ≡ some m)
      × (read_raid1 c b (record s' { meta = m }) ≡ some (success, s''))
      × (s''.user ≡ (if a == b then s.user else v b))
read_raid1-fail_disk-write_raid1 c v s a b i d h is_raid1 bare fits_a fits_b i_in serves =
    let (s', returns, same, h') = write_raid1-Mirrors c v s h a fits_a in
    let f =
      fail_disk-Fails c (put a s.user v) s' i d h' (rw same is_raid1) (rw same bare) (rw same i_in)
        (rw same serves) in
    let s₁ : Array = record s' { meta = f.after } in
    (
      s',
      f.after,
      record s₁ { user = put a s.user v b },
      returns,
      f.returns,
      read_raid1_lem c (put a s.user v) s₁ f.readable b (
          subst (λ k. suc (b / k) < c.disk_size / bsize)
            (sym (f.same_count ∙ ap (λ m. m.num_of_disks) same)) fits_b),
      refl,
    )

-- In a RAID 1 set without a reserve disk whose disks are all alive, either disk of a column is
-- reported dead, which succeeds. `write_raid1` of a block of that column, in a row that lies on the
-- disks, then reads `disk_state` out of its bounds, at index -2: the copy is disk -1. There are
-- fewer than `2 ^ 32 - 1` disks.
pub write_raid1-fail_disk :
    (c : Config) (v : ℕ → Transfer) (s : Array) (i d blkn : ℕ)
    → Mirrors c v s
    → s.meta.type ≡ raid1
    → s.meta.reserve_disk ≡ minus_one
    → c.disks < minus_one
    → i < s.meta.num_of_disks
    → Serves s.meta i d
    → column_of s.meta blkn ≡ i
    → row_of s.meta blkn < c.disk_size / bsize
    → (m : Raid) × (fail_disk c d s.meta ≡ some m)
      × (write_raid1 c blkn (record s { meta = m }) ≡ none)
write_raid1-fail_disk c v s i d blkn h is_raid1 bare few i_in serves e fits =
    let f = fail_disk-Fails c v s i d h is_raid1 bare i_in serves in
    (
      f.after,
      f.returns,
      write_raid1-no_copy c v (record s { meta = f.after }) blkn f.readable few
          (subst (λ k. suc (blkn / k) < c.disk_size / bsize) (sym f.same_count) fits)
          (ap (copy_at f.after) (ap (λ k. blkn % k) f.same_count ∙ e) ∙ f.no_copy),
    )
