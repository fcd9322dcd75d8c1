-- ===== src/Raid/Parity/Raid4.antt =====
-- RAID 4 as a volume: what is written is read, through the failure of any one disk.
use native.Mathlib.Decide.{ℕ_discrete}
use raid_system.Prelude.{
  ℕ, suc, ◌<◌, ◌/◌, ◌%◌, ◌≡◌, ◌≢◌, ◌⊎◌, inl, inr, sym, ◌∙◌, ap, subst, arith, some, ==_eq, ==_ne,
  ◌==◌, if◌then◌else◌, lt→leb_false, mod-lt_ne,
}
use raid_system.Raid.State.{Config, Block, xor_block, Array, success}
use raid_system.Raid.Device.{◌>>=◌, divisor_ne}
use raid_system.Raid.Parity.{
  cache, recover_if_dead, raid_write_updateparity_cache, write_stripe, write_raid4, read_raid4,
}
use raid_system.Raid.Parity.Cache.{slot_at, IsAlive, IsOnDisk, with_slots}
use raid_system.Raid.Parity.Volume.{Volume, Holds, cache-Caches}
use raid_system.Raid.Parity.Put.{write_volume}
use raid_system.Raid.Parity.Read.{recover_if_dead-Recovers, read_raid4-Reads}
use raid_system.Raid.Parity.Write.{Writes, write-cached, stored_block, xor_block_fresh}

module _ (c : Config) (v : Volume) (s : Array) (h : Holds c v s) (d stripe : ℕ)
    (d_in : d < s.meta.num_of_disks) (fits : IsOnDisk c stripe) where
  -- A stripe that was not cached is loaded, and a dead disk's block rebuilt first.
  write-loaded :
      0 < stripe
      → Writes c v s d stripe s.user.first (do
        s' ← cache c stripe s.meta.parity_disk s
        s'' ← recover_if_dead d s'
        s₃ ← raid_write_updateparity_cache c d s''
        some (success, s₃))
  write-loaded pos =
      let l = cache-Caches c v s h stripe fits pos in
      let d_in' : d < l.after.meta.num_of_disks = rw l.same_count d_in in
      let fits' : IsOnDisk c l.after.meta.cache.stripe = rw l.now_cached fits in
      let r = recover_if_dead-Recovers c v l.after l.holds d d_in' fits' in
      let after = with_slots l.after r.out in
      let w = write-cached c v after r.holds d d_in' fits' in
      let same_block : stored_block c v after r.holds d d_in' fits' ≡ s.user.first =
        xor_block_fresh (slot_at r.out d) (v d l.after.meta.cache.stripe) l.after.user.first r.full
        ∙ ap (λ u. u.first) l.same_user in
      record {
        after = w.after;
        returns = rw (l.returns, r.returns) w.returns;
        holds =
            subst (λ x. Holds c (write_volume s.meta.num_of_disks d stripe x v) w.after) same_block
              (subst
                (λ b.
                  Holds c
                    (write_volume s.meta.num_of_disks d b
                      (stored_block c v after r.holds d d_in' fits') v)
                    w.after)
                l.now_cached
                (subst
                  (λ k.
                    Holds c
                      (write_volume k d l.after.meta.cache.stripe
                        (stored_block c v after r.holds d d_in' fits') v)
                      w.after)
                  l.same_count w.holds));
        same_user = w.same_user ∙ l.same_user;
        same_count = w.same_count ∙ l.same_count;
      }

  -- A cached stripe is used as it is.
  write_stripe-cached :
      s.meta.cache.stripe ≡ stripe
      → Writes c v s d stripe
          (xor_block (xor_block (slot_at s.slots d) (v d stripe)) s.user.first)
          (write_stripe c stripe s.meta.parity_disk d s)
  unfolding write_stripe
  write_stripe-cached e = rw (==_eq s.meta.cache.stripe stripe e) (
      subst
        (λ b.
          Writes c v s d b (xor_block (xor_block (slot_at s.slots d) (v d b)) s.user.first)
            (do s' ← raid_write_updateparity_cache c d s; some (success, s')))
        e (write-cached c v s h d d_in (subst (IsOnDisk c) (sym e) fits)))

  write_stripe-loaded :
      s.meta.cache.stripe ≢ stripe
      → 0 < stripe
      → Writes c v s d stripe s.user.first (write_stripe c stripe s.meta.parity_disk d s)
  unfolding write_stripe
  write_stripe-loaded ne pos = rw (==_ne s.meta.cache.stripe stripe ne) (write-loaded pos)

module _ (c : Config) (v : Volume) (s : Array) (h : Holds c v s) (blkn : ℕ) where
  abbrev pub column : ℕ
  column = blkn % s.meta.num_of_disks

  abbrev pub row : ℕ
  row = suc (blkn / s.meta.num_of_disks)

  column_in : column < s.meta.num_of_disks
  column_in = mod-lt_ne blkn s.meta.num_of_disks h.layout.some_disks

  enter :
      {x : Block}
      → Writes c v s column row x (write_stripe c row s.meta.parity_disk column s)
      → Writes c v s column row x (write_raid4 c blkn s)
  unfolding write_raid4
  enter w =
      rw
        (
          lt→leb_false s.meta.max_dead_disks s.meta.num_dead_disks h.layout.in_service,
          divisor_ne s.meta.num_of_disks h.layout.some_disks,
        )
        w

  -- `write_raid4` succeeds on a stripe that lies on the disks, and puts the caller's 512 bytes into
  -- the volume and changes nothing else of it, if the disk of the block is alive or its stripe is
  -- not the cached one.
  pub write_raid4-Writes :
      IsOnDisk c row
      → (s.meta.cache.stripe ≢ row) ⊎ IsAlive s.meta column
      → Writes c v s column row s.user.first (write_raid4 c blkn s)
  write_raid4-Writes fits (inl ne) =
      enter (write_stripe-loaded c v s h column row column_in fits ne (omega arith))
  write_raid4-Writes fits (inr alive) = elim (ℕ_discrete s.meta.cache.stripe row) [
    | no ne ↦ enter (write_stripe-loaded c v s h column row column_in fits ne (omega arith))
    | yes e ↦
        subst (λ x. Writes c v s column row x (write_raid4 c blkn s))
          (xor_block_fresh (slot_at s.slots column) (v column row) s.user.first (
            h.slots_cached (subst (IsOnDisk c) (sym e) fits) column
              (omega (arith, column_in, h.layout.all_disks)) alive
            ∙ ap (v column) e))
          (enter (write_stripe-cached c v s h column row column_in fits e))
  ]

  -- If the stripe is the cached one, `write_raid4` does not rebuild the block of a dead disk
  -- first: the volume gets the caller's block combined with what the slot and the volume
  -- differ in.
  pub write_raid4-stale :
      IsOnDisk c row
      → s.meta.cache.stripe ≡ row
      → Writes c v s column row
          (xor_block (xor_block (slot_at s.slots column) (v column row)) s.user.first)
          (write_raid4 c blkn s)
  write_raid4-stale fits e = enter (write_stripe-cached c v s h column row column_in fits e)

-- Different blocks of the array lie on different disks or in different stripes.
address_inj : (n a b : ℕ) → n ≢ 0 → a % n ≡ b % n → suc (a / n) ≡ suc (b / n) → a ≡ b
address_inj n a b ne p q = grind arith

-- After `write_raid4` of a block, `read_raid4` of that block gives what was written, and of any
-- other block what the volume held before; both succeed. Both blocks lie in stripes that are on the
-- disks; the disk of the written block is alive or its stripe is not cached; at most one disk is
-- dead.
pub read_raid4-write_raid4 :
    (c : Config) (v : Volume) (s : Array) (h : Holds c v s) (a b : ℕ)
    → IsOnDisk c (row c v s h a)
    → IsOnDisk c (row c v s h b)
    → (s.meta.cache.stripe ≢ row c v s h a) ⊎ IsAlive s.meta (column c v s h a)
    → (s' : Array) × (s'' : Array) × (write_raid4 c a s ≡ some (success, s'))
      × (read_raid4 c b s' ≡ some (success, s''))
      × (s''.user.first ≡ (if a == b then s.user.first else v (column c v s h b) (row c v s h b)))
read_raid4-write_raid4 c v s h a b fits_a fits_b ok =
    let n = s.meta.num_of_disks in
    let w = write_raid4-Writes c v s h a fits_a ok in
    let v' = write_volume n (a % n) (suc (a / n)) s.user.first v in
    let r =
      read_raid4-Reads c v' w.after w.holds b
        (subst (λ k. IsOnDisk c (suc (b / k))) (sym w.same_count) fits_b) in
    (
      w.after,
      r.after,
      w.returns,
      r.returns,
      r.got ∙ ap (λ k. v' (b % k) (suc (b / k))) w.same_count ∙ result,
    )
  where
    result :
        write_volume s.meta.num_of_disks
          (a % s.meta.num_of_disks)
          (suc (a / s.meta.num_of_disks))
          s.user.first
          v
          (b % s.meta.num_of_disks)
          (suc (b / s.meta.num_of_disks))
        ≡ (if a == b
            then s.user.first
            else v (b % s.meta.num_of_disks) (suc (b / s.meta.num_of_disks)))
    result = ground (
      arith,
      mod-lt_ne b s.meta.num_of_disks h.layout.some_disks,
      address_inj s.meta.num_of_disks a b h.layout.some_disks,
    )
