-- ===== src/Raid/Parity/Recover.antt =====
-- `raid_tocache_recovery` as one equation.
use native.Mathlib.Decide.{ℕ_discrete}
use raid_system.Prelude.{
  ap₂, ℕ, zero, suc, ◌+◌, ◌≤◌, ◌<◌, ◌≡◌, ◌≢◌, refl, ◌∙◌, ap, arith, some, List, length, set,
  set-set, get_elem?-eq-get_or, get_or-set_self, get_or-set_ne, length-set, ==_eq, ==_ne,
}
use raid_system.Raid.State.{Config, raid4, raid5, Block, xor_block, zero_block, Array}
use raid_system.Raid.Device.{cached, store_cached, xor_cached}
use raid_system.Raid.Parity.{recover_from, raid_tocache_recovery}
use raid_system.Raid.Parity.Sum.{others_from}
use raid_system.Raid.Parity.Cache.{slot_at, IsWired, with_slots}

module _ (c : Config) (s : Array) (wired : IsWired c s.meta) where
  pub cached_lem :
      (i : ℕ) (xs : List Block)
      → i < c.disks
      → c.disks < length xs
      → cached i (with_slots s xs) ≡ some (slot_at xs i)
  unfolding cached
  cached_lem i xs h room =
      ground (arith, wired.pointers i h, get_elem?-eq-get_or xs i zero_block (omega arith))

  pub store_cached_lem :
      (i : ℕ) (v : Block) (xs : List Block)
      → i < c.disks
      → c.disks < length xs
      → store_cached i v (with_slots s xs) ≡ some (with_slots s (set xs i v))
  unfolding store_cached
  store_cached_lem i v xs h room =
      ground (arith, wired.pointers i h, get_elem?-eq-get_or xs i zero_block (omega arith))

  pub xor_cached_lem :
      (i j : ℕ) (xs : List Block)
      → i < c.disks
      → j < c.disks
      → c.disks < length xs
      → xor_cached i j (with_slots s xs)
        ≡ some (with_slots s (set xs i (xor_block (slot_at xs i) (slot_at xs j))))
  unfolding xor_cached
  xor_cached_lem i j xs h k room =
      rw (cached_lem i xs h room, cached_lem j xs k room, store_cached_lem i _ xs h room)

  -- The loop on a slot that holds `acc`.
  recover_from_lem :
      (d n j : ℕ) (acc : Block) (xs : List Block)
      → d < c.disks
      → j + n ≤ c.disks
      → c.disks < length xs
      → recover_from d n j (with_slots s (set xs d acc))
        ≡ some (with_slots s (set xs d (others_from d (slot_at xs) n j acc)))
  unfolding recover_from
  recover_from_lem d zero j acc xs h k room = refl
  recover_from_lem d (suc n) j acc xs h k room = elim (ℕ_discrete d j) [
    | yes e ↦ rw (==_eq d j e) (recover_from_lem d n (suc j) acc xs h (omega arith) room)
    | no ne ↦
        rw
          (
            ==_ne d j ne,
            xor_cached_lem d j (set xs d acc) h (omega arith) (rw length-set room),
            get_or-set_self xs d acc zero_block (omega arith),
            get_or-set_ne xs d j acc zero_block ne,
            set-set xs d acc (xor_block acc (slot_at xs j)),
          )
          (recover_from_lem d n (suc j) (xor_block acc (slot_at xs j)) xs h (omega arith) room)
  ]

  abbrev pub rebuilt : ℕ → List Block → Block
  rebuilt d xs = others_from d (slot_at xs) s.meta.num_of_disks 0 zero_block

  -- RAID 4: the other data disks, and the parity disk.
  pub recovery-raid4 :
      (d : ℕ) (xs : List Block)
      → s.meta.type ≡ raid4
      → d < c.disks
      → s.meta.parity_disk < c.disks
      → d ≢ s.meta.parity_disk
      → s.meta.num_of_disks ≤ c.disks
      → c.disks < length xs
      → raid_tocache_recovery d (with_slots s xs)
        ≡ some (with_slots s (set xs d (xor_block (rebuilt d xs) (slot_at xs s.meta.parity_disk))))
  unfolding raid_tocache_recovery
  recovery-raid4 d xs e h p ne k room =
      rw
        (
          store_cached_lem d zero_block xs h room,
          recover_from_lem d s.meta.num_of_disks 0 zero_block xs h (omega arith) room,
        )
        (simp e (
          xor_cached_lem d s.meta.parity_disk (set xs d (rebuilt d xs)) h p (rw length-set room)
          ∙ ap (λ v. some (with_slots s v))
              (set-set xs d _ _
                ∙ ap (set xs d) (
                    ap₂ xor_block (get_or-set_self xs d _ zero_block (omega arith))
                      (get_or-set_ne xs d s.meta.parity_disk _ zero_block ne)))))

  -- RAID 5: all the other disks.
  pub recovery-raid5 :
      (d : ℕ) (xs : List Block)
      → s.meta.type ≡ raid5
      → d < c.disks
      → s.meta.num_of_disks ≤ c.disks
      → c.disks < length xs
      → raid_tocache_recovery d (with_slots s xs) ≡ some (with_slots s (set xs d (rebuilt d xs)))
  unfolding raid_tocache_recovery
  recovery-raid5 d xs e h k room =
      rw
        (
          store_cached_lem d zero_block xs h room,
          recover_from_lem d s.meta.num_of_disks 0 zero_block xs h (omega arith) room,
        )
        (simp e)
