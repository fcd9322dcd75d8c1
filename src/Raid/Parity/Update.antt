-- ===== src/Raid/Parity/Update.antt =====
-- `raid_write_updateparity_cache` as one equation on slots and disks.
use raid_system.Prelude.{
  ℕ, suc, ◌<◌, ◌≡◌, ◌≢◌, inl, inr, sym, ◌∙◌, ap, ap₂, arith, some, List, length, set, set-set,
  set_comm, get_elem?-eq-get_or, get_or-set_self, get_or-set_ne, length-set, Bool-cases,
  if◌then◌else◌,
}
use raid_system.Raid.State.{
  Config, dead, is_dead, Block, xor_block, zero_block, Transfer, Raid, Array,
}
use raid_system.Raid.Device.{update_disk, write_cached}
use raid_system.Raid.Parity.{sync_if_alive, raid_write_updateparity_cache}
use raid_system.Raid.Parity.Cache.{
  slot_at, state_at, IsAlive, IsWired, IsOnDisk, with_slots, on_device-true,
}
use raid_system.Raid.Parity.Recover.{store_cached_lem, xor_cached_lem}

abbrev pub with_disk : Array → (ℕ → ℕ → Transfer) → Array
with_disk s f = record s { disk = f }

-- The two slots that a write of slot `i` takes to the disk.
abbrev pub slot_pair : List Block → ℕ → Transfer
slot_pair xs i = record { first = slot_at xs i; second = slot_at xs (suc i) }

-- The disks after slot `i` was written to block `b` of disk `i + 1`, if that is not dead.
abbrev pub sync_disk : Raid → ℕ → List Block → ℕ → (ℕ → ℕ → Transfer) → ℕ → ℕ → Transfer
sync_disk m b xs i f =
    if is_dead (state_at m i) then f else update_disk f (suc i) b (slot_pair xs i)

update_disk_self : (f : ℕ → ℕ → Transfer) (d b : ℕ) (t : Transfer) → update_disk f d b t d b ≡ t
update_disk_self f d b t = ground arith

update_disk-block :
    (f : ℕ → ℕ → Transfer) (d b d' b' : ℕ) (t : Transfer)
    → b' ≢ b
    → update_disk f d b t d' b' ≡ f d' b'
update_disk-block f d b d' b' t h = ground arith

update_disk-disk :
    (f : ℕ → ℕ → Transfer) (d b d' b' : ℕ) (t : Transfer)
    → d' ≢ d
    → update_disk f d b t d' b' ≡ f d' b'
update_disk-disk f d b d' b' t h = ground arith

module _ (m : Raid) (b : ℕ) (xs : List Block) (i : ℕ) (f : ℕ → ℕ → Transfer) where
  pub sync_disk_self : IsAlive m i → sync_disk m b xs i f (suc i) b ≡ slot_pair xs i
  sync_disk_self alive = rw alive (update_disk_self f (suc i) b (slot_pair xs i))

  pub sync_disk-block : (d b' : ℕ) → b' ≢ b → sync_disk m b xs i f d b' ≡ f d b'
  sync_disk-block d b' h = elim (Bool-cases (is_dead (state_at m i))) [
    | inl gone ↦ rw gone
    | inr alive ↦ rw alive (update_disk-block f (suc i) b d b' (slot_pair xs i) h)
  ]

  pub sync_disk-disk : (j b' : ℕ) → j ≢ i → sync_disk m b xs i f (suc j) b' ≡ f (suc j) b'
  sync_disk-disk j b' h = elim (Bool-cases (is_dead (state_at m i))) [
    | inl gone ↦ rw gone
    | inr alive ↦
        rw alive (update_disk-disk f (suc i) b (suc j) b' (slot_pair xs i) (λ e. h (omega arith)))
  ]

module _ (c : Config) (s : Array) (wired : IsWired c s.meta)
    (fits : IsOnDisk c s.meta.cache.stripe) where
  abbrev stripe : ℕ
  stripe = s.meta.cache.stripe

  sync_if_alive_lem :
      (i : ℕ) (xs : List Block) (f : ℕ → ℕ → Transfer)
      → i < c.disks
      → c.disks < length xs
      → sync_if_alive c i (with_disk (with_slots s xs) f)
        ≡ some (with_disk (with_slots s xs) (sync_disk s.meta stripe xs i f))
  unfolding sync_if_alive write_cached
  sync_if_alive_lem i xs f h room =
      let state = get_elem?-eq-get_or s.meta.disk_state i dead (rw wired.states h) in
      elim (Bool-cases (is_dead (state_at s.meta i))) [
        | inl gone ↦ rw (state, gone)
        | inr alive ↦ rw (
          state,
          alive,
          wired.pointers i h,
          on_device-true c i stripe h fits,
          get_elem?-eq-get_or xs i zero_block (omega arith),
          get_elem?-eq-get_or xs (suc i) zero_block (omega arith),
        )
      ]

  -- The slots after the parity gave up the old block and took the new one.
  abbrev pub new_slots : ℕ → List Block
  new_slots d =
      let p = s.meta.cache.parity_cached in
      let x = xor_block (slot_at s.slots p) (slot_at s.slots d) in
      set (set s.slots d s.user.first) p (xor_block x s.user.first)

  -- The disks after both were written.
  abbrev pub new_disk : ℕ → ℕ → ℕ → Transfer
  new_disk d =
      let xs = new_slots d in
      sync_disk s.meta stripe xs d (sync_disk s.meta stripe xs s.meta.cache.parity_cached s.disk)

  -- What `raid_write_updateparity_cache` does to the slots.
  update-slots :
      (d : ℕ)
      → d ≢ s.meta.cache.parity_cached
      → d < length s.slots
      → s.meta.cache.parity_cached < length s.slots
      → let p = s.meta.cache.parity_cached in
        let x = xor_block (slot_at s.slots p) (slot_at s.slots d) in
        let ys = set (set s.slots p x) d s.user.first in
        set ys p (xor_block (slot_at ys p) (slot_at ys d)) ≡ new_slots d
  update-slots d ne d_in p_in =
      let p = s.meta.cache.parity_cached in
      let x = xor_block (slot_at s.slots p) (slot_at s.slots d) in
      let new = s.user.first in
      let ys = set (set s.slots p x) d new in
      let at_p : slot_at ys p ≡ x =
        get_or-set_ne (set s.slots p x) d p new zero_block ne
        ∙ get_or-set_self s.slots p x zero_block p_in in
      let at_d : slot_at ys d ≡ new =
        get_or-set_self (set s.slots p x) d new zero_block (rw length-set d_in) in
      ap₂ (λ a b. set ys p (xor_block a b)) at_p at_d
      ∙ ap (λ zs. set zs p (xor_block x new)) (set_comm s.slots p d x new (λ e. ne (sym e)))
      ∙ set-set (set s.slots d new) p x (xor_block x new)

  -- The slots and the disks that it leaves.
  pub raid_write_updateparity_cache_lem :
      (d : ℕ)
      → d < c.disks
      → s.meta.cache.parity_cached < c.disks
      → d ≢ s.meta.cache.parity_cached
      → c.disks < length s.slots
      → raid_write_updateparity_cache c d s
        ≡ some (with_disk (with_slots s (new_slots d)) (new_disk d))
  unfolding raid_write_updateparity_cache
  raid_write_updateparity_cache_lem d d_in p_in ne room =
      let p = s.meta.cache.parity_cached in
      let x = xor_block (slot_at s.slots p) (slot_at s.slots d) in
      let new = s.user.first in
      let xs = new_slots d in
      let long : c.disks < length xs = rw (length-set, length-set) room in
      rw (
        xor_cached_lem c s wired p d s.slots p_in d_in room,
        store_cached_lem c s wired d new (set s.slots p x) d_in (rw length-set room),
        xor_cached_lem c s wired p d (set (set s.slots p x) d new) p_in d_in
            (rw (length-set, length-set) room),
        update-slots d ne (omega arith) (omega arith),
        sync_if_alive_lem p xs s.disk p_in long,
        sync_if_alive_lem d xs (sync_disk s.meta stripe xs p s.disk) d_in long,
      )
