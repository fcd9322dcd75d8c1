-- ===== src/Raid/Parity/Read.antt =====
-- `read_raid4` reads the volume, from a dead disk too.
use raid_system.Prelude.{
  ℕ, suc, ◌<◌, ◌/◌, ◌%◌, ◌≡◌, ◌≢◌, inl, inr, refl, sym, ◌∙◌, ap, ap₂, subst, arith, true, Option,
  some, List, length, set, get_elem?-eq-get_or, get_or-set_self, get_or-set_ne, length-set,
  Bool-cases, ==_eq, ==_ne, lt→leb_false, mod-lt_ne,
}
use raid_system.Raid.State.{
  Config, dead, is_dead, Block, xor_block, zero_block, Array, Ret, success,
}
use raid_system.Raid.Device.{◌>>=◌, divisor_ne}
use raid_system.Raid.Parity.{cache, recover_if_dead, copy_out, read_stripe, read_raid4}
use raid_system.Raid.Parity.Sum.{others_from_ext, others_from-parity}
use raid_system.Raid.Parity.Cache.{slot_at, state_at, IsAlive, IsOnDisk, with_slots}
use raid_system.Raid.Parity.Recover.{recovery-raid4, rebuilt, cached_lem}
use raid_system.Raid.Parity.Volume.{Volume, Holds, cache-Caches}
use native.Mathlib.Decide.{ℕ_discrete}

module _ (c : Config) (v : Volume) (s : Array) (h : Holds c v s) where
  -- With the stripe in the cache, the block of disk `d + 1` is in its slot afterwards.
  pub record Recovers (d : ℕ) (result : Option Array) : Type 0 where
    pub out : List Block
    pub returns : result ≡ some (with_slots s out)
    pub holds : Holds c v (with_slots s out)
    pub full : slot_at out d ≡ v d s.meta.cache.stripe

  module _ (d : ℕ) (d_in : d < s.meta.num_of_disks) (fits : IsOnDisk c s.meta.cache.stripe) where
    parity_in : s.meta.parity_disk < c.disks
    parity_in = omega (arith, h.layout.all_disks, h.layout.parity_last)

    d_disk : d < c.disks
    d_disk = omega (arith, h.layout.all_disks)

    d_not_parity : d ≢ s.meta.parity_disk
    d_not_parity = omega (arith, h.layout.parity_last)

    module _ (gone : is_dead (state_at s.meta d) ≡ true) where
      -- All the others are alive.
      others-IsAlive : (k : ℕ) → k < c.disks → k ≢ d → IsAlive s.meta k
      others-IsAlive k k_in ne = elim (Bool-cases (is_dead (state_at s.meta k))) [
        | inl dead_too ↦ absurd (ne (h.layout.one_dead k d dead_too gone k_in d_disk))
        | inr alive ↦ alive
      ]

      rebuilt-volume :
          xor_block (rebuilt c s h.layout.wired d s.slots) (slot_at s.slots s.meta.parity_disk)
          ≡ v d s.meta.cache.stripe
      rebuilt-volume =
          let n = s.meta.num_of_disks in
          let b = s.meta.cache.stripe in
          ap₂ xor_block
            (others_from_ext d (slot_at s.slots) (λ j. v j b) n 0 zero_block
              (λ k k_in ne.
                h.slots_cached fits k (omega (arith, h.layout.all_disks))
                  (others-IsAlive k (omega (arith, h.layout.all_disks)) ne)))
            (h.slots_cached fits s.meta.parity_disk parity_in
                (others-IsAlive s.meta.parity_disk parity_in (λ e. d_not_parity (sym e)))
              ∙ ap (λ j. v j b) h.layout.parity_last
              ∙ h.sums b)
          ∙ others_from-parity d n (λ j. v j b) d_in

      recovered : List Block
      recovered =
          set s.slots d
            (xor_block (rebuilt c s h.layout.wired d s.slots) (slot_at s.slots s.meta.parity_disk))

      recover-dead : Recovers d (recover_if_dead d s)
      unfolding recover_if_dead recovered
      recover-dead = record {
        out = recovered;
        returns =
            rw
              (get_elem?-eq-get_or s.meta.disk_state d dead (rw h.layout.wired.states d_disk), gone)
              (recovery-raid4 c s h.layout.wired d s.slots h.layout.is_raid4 d_disk parity_in
                d_not_parity (omega (arith, h.layout.all_disks)) h.room);
        holds = record {
          layout = h.layout;
          room = rw length-set h.room;
          sums = h.sums;
          stored = h.stored;
          parity_cached = h.parity_cached;
          slots_cached = λ on j j_in alive.
              get_or-set_ne s.slots d j _ zero_block
                (λ e. absurd (cc (alive, gone, ap (λ i. is_dead (state_at s.meta i)) e)))
              ∙ h.slots_cached on j j_in alive;
        };
        full = get_or-set_self s.slots d _ zero_block (omega (arith, h.room)) ∙ rebuilt-volume;
      }

    recover-alive : IsAlive s.meta d → Recovers d (recover_if_dead d s)
    unfolding recover_if_dead
    recover-alive alive = record {
      out = s.slots;
      returns =
          rw
            (get_elem?-eq-get_or s.meta.disk_state d dead (rw h.layout.wired.states d_disk), alive);
      holds = h;
      full = h.slots_cached fits d d_disk alive;
    }

    pub recover_if_dead-Recovers : Recovers d (recover_if_dead d s)
    recover_if_dead-Recovers = elim (Bool-cases (is_dead (state_at s.meta d))) [
      | inl gone ↦ recover-dead gone
      | inr alive ↦ recover-alive alive
    ]

    copy_out_lem :
        (xs : List Block)
        → c.disks < length xs
        → copy_out d (with_slots s xs)
          ≡ some
              (success, record (with_slots s xs) { user = record s.user { first = slot_at xs d } })
    unfolding copy_out
    copy_out_lem xs room = rw (cached_lem c s h.layout.wired d xs d_disk room)

-- The volume's block is in the caller's first 512 bytes, the disks are as they were, and the
-- array holds the same volume.
pub record Reads (c : Config) (v : Volume) (s : Array) (d stripe : ℕ)
    (result : Option (Ret × Array)) : Type 0 where
  pub after : Array
  pub returns : result ≡ some (success, after)
  pub got : after.user.first ≡ v d stripe
  pub kept : after.user.second ≡ s.user.second
  pub same_disk : after.disk ≡ s.disk
  pub holds : Holds c v after

module _ (c : Config) (v : Volume) (s : Array) (h : Holds c v s) where
  read-cached :
      (d : ℕ)
      → d < s.meta.num_of_disks
      → IsOnDisk c s.meta.cache.stripe
      → Reads c v s d s.meta.cache.stripe (do s' ← recover_if_dead d s; copy_out d s')
  read-cached d d_in fits =
      let r = recover_if_dead-Recovers c v s h d d_in fits in
      record {
        after = record (with_slots s r.out) { user = record s.user { first = slot_at r.out d } };
        returns = rw r.returns (copy_out_lem c v s h d d_in fits r.out r.holds.room);
        got = r.full;
        kept = refl;
        same_disk = refl;
        holds = record {
          layout = r.holds.layout;
          room = r.holds.room;
          sums = r.holds.sums;
          stored = r.holds.stored;
          parity_cached = r.holds.parity_cached;
          slots_cached = r.holds.slots_cached;
        };
      }

module _ (c : Config) (v : Volume) (s : Array) (h : Holds c v s) where
  -- After `cache`, in the state that it leaves.
  read-loaded :
      (d stripe : ℕ)
      → d < s.meta.num_of_disks
      → IsOnDisk c stripe
      → 0 < stripe
      → Reads c v s d stripe
          (do s' ← cache c stripe s.meta.parity_disk s; s'' ← recover_if_dead d s'; copy_out d s'')
  read-loaded d stripe d_in fits pos =
      let l = cache-Caches c v s h stripe fits pos in
      let r = read-cached c v l.after l.holds d (rw l.same_count d_in) (rw l.now_cached fits) in
      record {
        after = r.after;
        returns = rw l.returns r.returns;
        got = r.got ∙ ap (v d) l.now_cached;
        kept = r.kept ∙ ap (λ u. u.second) l.same_user;
        same_disk = r.same_disk ∙ l.same_disk;
        holds = r.holds;
      }

  pub read_stripe-Reads :
      (d stripe : ℕ)
      → d < s.meta.num_of_disks
      → IsOnDisk c stripe
      → 0 < stripe
      → Reads c v s d stripe (read_stripe c stripe s.meta.parity_disk d s)
  unfolding read_stripe
  read_stripe-Reads d stripe d_in fits pos = elim (ℕ_discrete s.meta.cache.stripe stripe) [
    | yes e ↦ rw (==_eq s.meta.cache.stripe stripe e) (
        subst (λ b. Reads c v s d b (do s' ← recover_if_dead d s; copy_out d s')) e
          (read-cached c v s h d d_in (subst (IsOnDisk c) (sym e) fits)))
    | no ne ↦ rw (==_ne s.meta.cache.stripe stripe ne) (read-loaded d stripe d_in fits pos)
  ]

  -- A RAID 4 array with at most one dead disk gives back every block of its volume: the block
  -- itself, or what the other disks make of it. The read succeeds if the stripe lies on the
  -- disks; it changes no disk, and the array goes on holding the same volume.
  pub read_raid4-Reads :
      (blkn : ℕ)
      → IsOnDisk c (suc (blkn / s.meta.num_of_disks))
      → Reads c v s
          (blkn % s.meta.num_of_disks)
          (suc (blkn / s.meta.num_of_disks))
          (read_raid4 c blkn s)
  unfolding read_raid4
  read_raid4-Reads blkn fits =
      let n = s.meta.num_of_disks in
      rw
        (
          lt→leb_false s.meta.max_dead_disks s.meta.num_dead_disks h.layout.in_service,
          divisor_ne n h.layout.some_disks,
        )
        (read_stripe-Reads (blkn % n) (suc (blkn / n)) (mod-lt_ne blkn n h.layout.some_disks) fits
          (omega arith))
