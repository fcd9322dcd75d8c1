-- ===== src/Raid/Parity/Load.antt =====
-- The stripe that `cache` loads, the parity block last.
use native.Mathlib.Decide.{ℕ_discrete}
use raid_system.Prelude.{
  ℕ, suc, ◌≤◌, ◌<◌, ◌≡◌, ◌≢◌, inl, inr, sym, ◌∙◌, arith, true, Option, some, List, length, set,
  get_or-set_ne, Bool-cases,
}
use raid_system.Raid.State.{Config, is_dead, Block, zero_block, Array}
use raid_system.Raid.Parity.{read_if_alive, cache_from, cache, set_cached_stripe, set_parity}
use raid_system.Raid.Parity.Cache.{
  slot_at, state_at, IsAlive, IsWired, IsOnDisk, with_slots, filled, length-filled,
  read_if_alive-alive, read_if_alive-dead, slot_at-filled_self, slot_at-filled_behind, IsLoaded,
  cache_from-IsLoaded,
}

module _ (c : Config) (s : Array) (stripe p : ℕ) where
  -- The state after `cache`, but for the slots.
  abbrev pub cached_state : Array
  cached_state = set_parity c p (set_cached_stripe c stripe s)

  -- The blocks of the disks that are alive are in their slots; the slot behind that of the parity
  -- holds the second half of the parity block.
  pub record IsCached (result : Option Array) : Type 0 where
    pub out : List Block
    pub returns : result ≡ some (with_slots cached_state out)
    pub same_length : length out ≡ length s.slots
    pub blocks :
        (j : ℕ)
        → j < s.meta.num_of_disks
        → IsAlive s.meta j
        → j ≢ suc p
        → slot_at out j ≡ (s.disk (suc j) stripe).first
    pub parity : IsAlive s.meta p → slot_at out p ≡ (s.disk (suc p) stripe).first
    pub behind : IsAlive s.meta p → slot_at out (suc p) ≡ (s.disk (suc p) stripe).second

module _ (c : Config) (s : Array) (stripe p : ℕ) (wired : IsWired c s.meta)
    (fits : IsOnDisk c stripe) (room : c.disks < length s.slots) (parity_in : p < c.disks)
    (disks_in : s.meta.num_of_disks ≤ c.disks) where
  abbrev cleared : Array
  cleared = set_cached_stripe c stripe s

  cleared-IsWired : IsWired c cleared.meta
  cleared-IsWired = record { states = wired.states; pointers = wired.pointers }

  ready-IsWired : IsWired c (cached_state c s stripe p).meta
  ready-IsWired = record { states = wired.states; pointers = wired.pointers }

  loaded :
      IsLoaded c cleared cleared-IsWired stripe fits 0 s.meta.num_of_disks s.slots
        (cache_from c stripe s.meta.num_of_disks 0 cleared)
  loaded =
      cache_from-IsLoaded c cleared cleared-IsWired stripe fits s.meta.num_of_disks 0
        s.meta.num_of_disks s.slots (omega arith) disks_in room

  cache-last :
      cache c stripe p s
      ≡ read_if_alive c p stripe (with_slots (cached_state c s stripe p) loaded.out)
  unfolding cache
  cache-last = rw loaded.returns

  cache-alive : IsAlive s.meta p → IsCached c s stripe p (cache c stripe p s)
  cache-alive alive =
      let ready = cached_state c s stripe p in
      let room' : c.disks < length loaded.out = rw loaded.same_length room in
      record {
        out = filled c ready ready-IsWired stripe fits p loaded.out;
        returns =
            cache-last
            ∙ read_if_alive-alive c ready ready-IsWired stripe fits p loaded.out parity_in room'
                alive;
        same_length =
            length-filled c ready ready-IsWired stripe fits p loaded.out ∙ loaded.same_length;
        blocks = λ j h live ne. elim (ℕ_discrete p j) [
          | yes e ↦
              rw (← e)
                (slot_at-filled_self c ready ready-IsWired stripe fits p loaded.out (omega arith))
          | no ne' ↦
              get_or-set_ne (set loaded.out p _) (suc p) j _ zero_block (λ e. ne (sym e))
              ∙ get_or-set_ne loaded.out p j _ zero_block ne'
              ∙ loaded.inside j (omega arith) h live
        ];
        parity =
            λ _. slot_at-filled_self c ready ready-IsWired stripe fits p loaded.out (omega arith);
        behind =
            λ _. slot_at-filled_behind c ready ready-IsWired stripe fits p loaded.out (omega arith);
      }

  cache-dead : is_dead (state_at s.meta p) ≡ true → IsCached c s stripe p (cache c stripe p s)
  cache-dead gone = record {
    out = loaded.out;
    returns =
        cache-last
        ∙ read_if_alive-dead c (cached_state c s stripe p) ready-IsWired stripe fits p loaded.out
            parity_in gone;
    same_length = loaded.same_length;
    blocks = λ j h live ne. loaded.inside j (omega arith) h live;
    parity = λ alive. absurd (cc);
    behind = λ alive. absurd (cc);
  }

  pub cache-IsCached : IsCached c s stripe p (cache c stripe p s)
  cache-IsCached = elim (Bool-cases (is_dead (state_at s.meta p))) [
    | inl gone ↦ cache-dead gone
    | inr alive ↦ cache-alive alive
  ]
