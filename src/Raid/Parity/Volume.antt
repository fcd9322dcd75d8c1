-- ===== src/Raid/Parity/Volume.antt =====
-- The contents that a RAID 4 array stands for, with at most one disk dead, and how the stripe
-- cache and the recovery keep them.
use native.Mathlib.Decide.{ℕ_discrete}
use raid_system.Prelude.{
  ℕ, suc, ◌<◌, ◌≡◌, ◌≢◌, refl, sym, ◌∙◌, subst, arith, true, Option, some, length,
}
use raid_system.Raid.State.{Config, is_dead, raid4, Block, Raid, Array}
use raid_system.Raid.Parity.{cache}
use raid_system.Raid.Parity.Sum.{parity_of}
use raid_system.Raid.Parity.Cache.{slot_at, state_at, IsAlive, IsWired, IsOnDisk, with_slots}
use raid_system.Raid.Parity.Load.{cached_state, IsCached, cache-IsCached}

-- The blocks by disk and stripe, the parity disk last.
abbrev pub Volume : Type 0
Volume = ℕ → ℕ → Block

-- The metadata of a RAID 4 array with at most one dead disk.
pub record IsRaid4 (c : Config) (m : Raid) : Type 0 where
  pub wired : IsWired c m
  pub is_raid4 : m.type ≡ raid4
  pub some_disks : m.num_of_disks ≢ 0
  pub all_disks : suc m.num_of_disks ≡ c.disks
  pub parity_last : m.parity_disk ≡ m.num_of_disks
  pub in_service : m.num_dead_disks < m.max_dead_disks
  pub one_dead :
      (i j : ℕ)
      → is_dead (state_at m i) ≡ true
      → is_dead (state_at m j) ≡ true
      → i < c.disks
      → j < c.disks
      → i ≡ j

-- Every disk that is alive holds its blocks in the first halves, the parity block of a stripe is
-- that of its data blocks, and the slots hold the stripe that is cached.
pub record Holds (c : Config) (v : Volume) (s : Array) : Type 0 where
  pub layout : IsRaid4 c s.meta
  pub room : c.disks < length s.slots
  pub sums : (b : ℕ) → v s.meta.num_of_disks b ≡ parity_of s.meta.num_of_disks (λ j. v j b)
  pub stored :
      (j b : ℕ)
      → j < c.disks
      → IsAlive s.meta j
      → IsOnDisk c b
      → 0 < b
      → (s.disk (suc j) b).first ≡ v j b
  pub parity_cached :
      IsOnDisk c s.meta.cache.stripe → s.meta.cache.parity_cached ≡ s.meta.num_of_disks
  pub slots_cached :
      IsOnDisk c s.meta.cache.stripe
      → (j : ℕ) → j < c.disks
      → IsAlive s.meta j
      → slot_at s.slots j ≡ v j s.meta.cache.stripe

module _ (c : Config) (v : Volume) (s : Array) (h : Holds c v s) where
  abbrev loaded_state : ℕ → Array
  loaded_state stripe = cached_state c s stripe s.meta.parity_disk

  loaded :
      (stripe : ℕ)
      → IsOnDisk c stripe
      → IsCached c s stripe s.meta.parity_disk (cache c stripe s.meta.parity_disk s)
  loaded stripe fits =
      cache-IsCached c s stripe s.meta.parity_disk h.layout.wired fits h.room
        (omega (arith, h.layout.all_disks, h.layout.parity_last))
        (omega (arith, h.layout.all_disks))

  loaded-slots :
      (stripe : ℕ) (fits : IsOnDisk c stripe)
      → 0 < stripe
      → (j : ℕ) → j < c.disks
      → IsAlive s.meta j
      → slot_at (loaded stripe fits).out j ≡ v j stripe
  loaded-slots stripe fits pos j k alive = elim (ℕ_discrete s.meta.parity_disk j) [
    | yes e ↦
        let last : IsAlive s.meta s.meta.parity_disk = subst (IsAlive s.meta) (sym e) alive in
        subst (λ i. slot_at (loaded stripe fits).out i ≡ v i stripe) e
          ((loaded stripe fits).parity last
            ∙ h.stored s.meta.parity_disk stripe
                (omega (arith, h.layout.all_disks, h.layout.parity_last)) last fits pos)
    | no ne ↦
        (loaded stripe fits).blocks j (omega (arith, h.layout.all_disks, h.layout.parity_last))
          alive (omega (arith, h.layout.all_disks, h.layout.parity_last))
        ∙ h.stored j stripe k alive fits pos
  ]

  loaded-IsRaid4 : (stripe : ℕ) → IsRaid4 c (loaded_state stripe).meta
  loaded-IsRaid4 stripe = record {
    wired = record { states = h.layout.wired.states; pointers = h.layout.wired.pointers };
    is_raid4 = h.layout.is_raid4;
    some_disks = h.layout.some_disks;
    all_disks = h.layout.all_disks;
    parity_last = h.layout.parity_last;
    in_service = h.layout.in_service;
    one_dead = h.layout.one_dead;
  }

  -- What `cache` returns for a stripe, which it makes the cached one.
  pub record Caches (stripe : ℕ) (result : Option Array) : Type 0 where
    pub after : Array
    pub returns : result ≡ some after
    pub holds : Holds c v after
    pub now_cached : after.meta.cache.stripe ≡ stripe
    pub same_states : after.meta.disk_state ≡ s.meta.disk_state
    pub same_count : after.meta.num_of_disks ≡ s.meta.num_of_disks
    pub same_disk : after.disk ≡ s.disk
    pub same_user : after.user ≡ s.user

  pub cache-Caches :
      (stripe : ℕ)
      → IsOnDisk c stripe
      → 0 < stripe
      → Caches stripe (cache c stripe s.meta.parity_disk s)
  cache-Caches stripe fits pos = record {
    after = with_slots (loaded_state stripe) (loaded stripe fits).out;
    returns = (loaded stripe fits).returns;
    holds = record {
      layout = loaded-IsRaid4 stripe;
      room = rw (loaded stripe fits).same_length h.room;
      sums = h.sums;
      stored = h.stored;
      parity_cached = λ _. h.layout.parity_last;
      slots_cached = λ _. loaded-slots stripe fits pos;
    };
    now_cached = refl;
    same_states = refl;
    same_count = refl;
    same_disk = refl;
    same_user = refl;
  }
