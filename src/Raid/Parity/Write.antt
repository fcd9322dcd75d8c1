-- ===== src/Raid/Parity/Write.antt =====
-- `write_raid4` writes the volume, to a dead disk too.
use native.Mathlib.Decide.{ℕ_discrete}
use raid_system.Prelude.{
  ℕ, suc, ◌<◌, ◌≡◌, ◌≢◌, refl, sym, ◌∙◌, ap, subst, arith, Option, some, List, set, get_or-set_self,
  get_or-set_ne, length-set, ==_eq, ==_ne,
}
use raid_system.Raid.State.{Config, Block, xor_block, zero_block, Transfer, Array, Ret, success}
use raid_system.Raid.Device.{◌>>=◌}
use raid_system.Raid.Parity.{raid_write_updateparity_cache}
use raid_system.Raid.Parity.Sum.{
  parity_of, parity_of-update, xor_block_assoc, xor_block_comm, xor_block_cancel,
}
use raid_system.Raid.Parity.Put.{
  put_block, write_volume, write_volume_self, write_volume-disk, write_volume-stripe,
  write_volume-parity, write_volume-sums,
}
use raid_system.Raid.Parity.Cache.{slot_at, IsAlive, IsOnDisk, with_slots}
use raid_system.Raid.Parity.Volume.{Volume, Holds}
use raid_system.Raid.Parity.Update.{
  with_disk, sync_disk, sync_disk_self, sync_disk-block, sync_disk-disk, new_slots, new_disk,
  raid_write_updateparity_cache_lem,
}

-- The volume has `x` as block `d` of the stripe, and is as it was elsewhere.
pub record Writes (c : Config) (v : Volume) (s : Array) (d stripe : ℕ) (x : Block)
    (result : Option (Ret × Array)) : Type 0 where
  pub after : Array
  pub returns : result ≡ some (success, after)
  pub holds : Holds c (write_volume s.meta.num_of_disks d stripe x v) after
  pub same_user : after.user ≡ s.user
  pub same_count : after.meta.num_of_disks ≡ s.meta.num_of_disks

-- Taking `a` out and `x` in is taking `b` out and `a ^ b ^ x` in.
xor_block_through :
    (p a b x : Block)
    → xor_block (xor_block p a) x ≡ xor_block (xor_block p b) (xor_block (xor_block a b) x)
xor_block_through p a b x =
    ap (λ t. xor_block t x)
      (ap (λ t. xor_block t a) (sym (xor_block_cancel p b))
        ∙ xor_block_assoc (xor_block p b) b a
        ∙ ap (xor_block (xor_block p b)) (xor_block_comm b a))
    ∙ xor_block_assoc (xor_block p b) (xor_block a b) x

pub xor_block_fresh : (a b x : Block) → a ≡ b → xor_block (xor_block a b) x ≡ x
xor_block_fresh a b x e =
    xor_block_comm (xor_block a b) x
    ∙ ap (λ t. xor_block x (xor_block t b)) e
    ∙ sym (xor_block_assoc x b b)
    ∙ xor_block_cancel x b

module _ (c : Config) (v : Volume) (s : Array) (h : Holds c v s) (d : ℕ)
    (d_in : d < s.meta.num_of_disks) (fits : IsOnDisk c s.meta.cache.stripe) where
  abbrev n : ℕ
  n = s.meta.num_of_disks

  abbrev p : ℕ
  p = s.meta.cache.parity_cached

  abbrev b : ℕ
  b = s.meta.cache.stripe

  -- What the volume gets: the caller's block, if the slot held the block of the volume.
  abbrev pub stored_block : Block
  stored_block = xor_block (xor_block (slot_at s.slots d) (v d b)) s.user.first

  abbrev written : Volume
  written = write_volume n d b stored_block v

  abbrev xs : List Block
  xs = new_slots c s h.layout.wired fits d

  p_last : p ≡ n
  p_last = h.parity_cached fits

  p_in : p < c.disks
  p_in = omega (arith, h.layout.all_disks, p_last)

  d_disk : d < c.disks
  d_disk = omega (arith, h.layout.all_disks)

  d_not_p : d ≢ p
  d_not_p = omega (arith, p_last)

  put_self : put_block d stored_block (λ k. v k b) d ≡ stored_block
  put_self = rw (==_eq d d refl)

  put_other : (k : ℕ) → k ≢ d → put_block d stored_block (λ j. v j b) k ≡ v k b
  put_other k ne = rw (==_ne k d ne)

  slot_at-parity : IsAlive s.meta p → slot_at xs p ≡ written p b
  slot_at-parity alive =
      let old = parity_of n (λ j. v j b) in
      get_or-set_self (set s.slots d s.user.first) p _ zero_block
        (rw length-set (omega (arith, h.room, p_in)))
      ∙ ap (λ t. xor_block (xor_block t (slot_at s.slots d)) s.user.first)
          (h.slots_cached fits p p_in alive ∙ ap (λ j. v j b) p_last ∙ h.sums b)
      ∙ xor_block_through old (slot_at s.slots d) (v d b) s.user.first
      ∙ ap (xor_block (xor_block old (v d b))) (sym put_self)
      ∙ parity_of-update d n (λ j. v j b) (put_block d stored_block (λ k. v k b)) d_in
          (λ k k_in ne. sym (put_other k ne))
      ∙ sym (write_volume-parity n d b stored_block v)
      ∙ ap (λ j. written j b) (sym p_last)

  slot_at-data : IsAlive s.meta d → slot_at xs d ≡ written d b
  slot_at-data alive =
      get_or-set_ne (set s.slots d s.user.first) p d _ zero_block (λ e. d_not_p (sym e))
      ∙ get_or-set_self s.slots d s.user.first zero_block (omega (arith, h.room, d_disk))
      ∙ sym (
          xor_block_fresh (slot_at s.slots d) (v d b) s.user.first
            (h.slots_cached fits d d_disk alive))
      ∙ sym (write_volume_self n d b stored_block v (omega arith))

  slot_at-new : (j : ℕ) → j < c.disks → IsAlive s.meta j → slot_at xs j ≡ written j b
  slot_at-new j j_in alive = elim (ℕ_discrete p j) [
    | yes e ↦
        subst (λ i. slot_at xs i ≡ written i b) e
          (slot_at-parity (subst (IsAlive s.meta) (sym e) alive))
    | no ne ↦ elim (ℕ_discrete d j) [
      | yes e ↦
          subst (λ i. slot_at xs i ≡ written i b) e
            (slot_at-data (subst (IsAlive s.meta) (sym e) alive))
      | no ne' ↦
          get_or-set_ne (set s.slots d s.user.first) p j _ zero_block ne
          ∙ get_or-set_ne s.slots d j _ zero_block ne'
          ∙ h.slots_cached fits j j_in alive
          ∙ sym (
              write_volume-disk n d b stored_block v j b (omega (arith, p_last)) (λ e. ne' (sym e)))
    ]
  ]

  abbrev disk₁ : ℕ → ℕ → Transfer
  disk₁ = sync_disk s.meta b xs p s.disk

  disk-new :
      (j b' : ℕ)
      → j < c.disks
      → IsAlive s.meta j
      → IsOnDisk c b'
      → 0 < b'
      → (new_disk c s h.layout.wired fits d (suc j) b').first ≡ written j b'
  disk-new j b' j_in alive on pos = elim (ℕ_discrete b' b) [
    | no ne ↦
        ap (λ t. t.first)
          (sync_disk-block s.meta b xs d disk₁ (suc j) b' ne
            ∙ sync_disk-block s.meta b xs p s.disk (suc j) b' ne)
        ∙ h.stored j b' j_in alive on pos
        ∙ sym (write_volume-stripe n d b stored_block v j b' ne)
    | yes e ↦
        subst (λ t. (new_disk c s h.layout.wired fits d (suc j) t).first ≡ written j t) (sym e)
          (disk-stripe j j_in alive (subst (λ t. 0 < t) e pos))
  ]
    where
      disk-stripe :
          (j : ℕ)
          → j < c.disks
          → IsAlive s.meta j
          → 0 < b
          → (new_disk c s h.layout.wired fits d (suc j) b).first ≡ written j b
      disk-stripe j j_in alive pos = elim (ℕ_discrete j d) [
        | yes e ↦
            subst (λ i. (new_disk c s h.layout.wired fits d (suc i) b).first ≡ written i b) (sym e)
              (ap (λ t. t.first)
                  (sync_disk_self s.meta b xs d disk₁ (subst (IsAlive s.meta) e alive))
                ∙ slot_at-data (subst (IsAlive s.meta) e alive))
        | no ne ↦
            ap (λ t. t.first) (sync_disk-disk s.meta b xs d disk₁ j b ne) ∙ elim (ℕ_discrete j p) [
              | yes e ↦
                  subst (λ i. (disk₁ (suc i) b).first ≡ written i b) (sym e)
                    (ap (λ t. t.first)
                        (sync_disk_self s.meta b xs p s.disk (subst (IsAlive s.meta) e alive))
                      ∙ slot_at-parity (subst (IsAlive s.meta) e alive))
              | no ne' ↦
                  ap (λ t. t.first) (sync_disk-disk s.meta b xs p s.disk j b ne')
                  ∙ h.stored j b j_in alive fits pos
                  ∙ sym (write_volume-disk n d b stored_block v j b (omega (arith, p_last)) ne)
            ]
      ]

  pub write-cached :
      Writes c v s d b stored_block
        (do s' ← raid_write_updateparity_cache c d s; some (success, s'))
  write-cached = record {
    after = with_disk (with_slots s xs) (new_disk c s h.layout.wired fits d);
    returns =
        rw (raid_write_updateparity_cache_lem c s h.layout.wired fits d d_disk p_in d_not_p h.room);
    holds = record {
      layout = h.layout;
      room = rw (length-set, length-set) h.room;
      sums = write_volume-sums n d b stored_block v h.sums;
      stored = disk-new;
      parity_cached = h.parity_cached;
      slots_cached = λ _. slot_at-new;
    };
    same_user = refl;
    same_count = refl;
  }
