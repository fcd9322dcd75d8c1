-- ===== src/Raid/Control/Lifecycle.antt =====
-- `init_raid`, a restart, and `destroy_raid`.
use native.Mathlib.Numerals.{add-one}
use raid_system.Prelude.{
  ℕ, suc, ◌+◌, ◌/◌, ◌≤◌, ◌<◌, ◌≡◌, refl, ◌∙◌, ap, arith, false, none, some, length, get_elem?,
  get_elem?-replicate, get_or-replicate, length-replicate,
}
use raid_system.Raid.State.{
  Config, bsize, DiskState, alive, dead, is_dead, RaidType, raid0, raid1, raid0_1, raid4, raid5,
  other, Raid, zero_raid, success, failure,
}
use raid_system.Raid.System.{
  Page, System, set_page, initialized, filled_page, reset_cache, fetch, writeback,
}
use raid_system.Raid.System.Laws.{Saves, dead_in, writeback-Saves}
use raid_system.Raid.Control.{
  announce, init_common, init_switch, init_disks, init_raid, info_raid, destroy_fetch, destroy_raid,
}
use raid_system.Raid.Control.Persist.{HasPointers, init_disks-Saves, fetched, fetch-none}

-- The metadata that `init_raid` makes of what `fetch` found.
abbrev pub initial : Config → RaidType → Raid → Raid
initial c raid m = init_switch c raid (init_common c raid m)

initial-cache : (c : Config) (raid : RaidType) (m : Raid) → (initial c raid m).cache ≡ m.cache
unfolding init_switch
initial-cache c raid0 m = refl
initial-cache c raid1 m = refl
initial-cache c raid0_1 m = refl
initial-cache c raid4 m = refl
initial-cache c raid5 m = refl
initial-cache c (other n) m = refl

initial-states :
    (c : Config) (raid : RaidType) (m : Raid) → (initial c raid m).disk_state ≡ m.disk_state
unfolding init_switch
initial-states c raid0 m = refl
initial-states c raid1 m = refl
initial-states c raid0_1 m = refl
initial-states c raid4 m = refl
initial-states c raid5 m = refl
initial-states c (other n) m = refl

module _ (c : Config) (raid : RaidType) (s s' : System) (p : Page)
    (found : fetch c s ≡ some (p, s')) (has_slot : 0 < length p.slots)
    (has_block : 0 < c.disk_size / bsize) (h : HasPointers c p.meta) where
  abbrev pub made : Page
  made = record p { meta = initial c raid p.meta }

  made-HasPointers : HasPointers c made.meta
  made-HasPointers i i_in = rw (initial-cache c raid p.meta) (h i i_in)

  all_saved :
      Saves c made has_slot has_block 0 c.disks
        (λ _. false)
        (set_page (announce raid s') made)
        (init_disks c c.disks 0 made (set_page (announce raid s') made))
  all_saved =
      init_disks-Saves c made has_slot has_block made-HasPointers c.disks 0 c.disks
        (announce raid s') (omega arith) (omega arith)

  init_raid-after : init_raid c raid s ≡ some (success, all_saved.after)
  unfolding init_raid
  init_raid-after = rw (found, all_saved.returns)

  -- After `init_raid` and a restart, which loses the memory and has a page to give, `fetch` finds
  -- the metadata that `init_raid` made, but for the cache, which is not valid. The first `fetch`
  -- succeeded, and disk 2 is not marked as dead in what it found.
  pub fetch-init_raid :
      (state : DiskState) (k : ℕ)
      → 0 < c.disks
      → get_elem? p.meta.disk_state 1 ≡ some state
      → is_dead state ≡ false
      → (s₁ : System) × (q : Page) × (s₂ : System) × (init_raid c raid s ≡ some (success, s₁))
        × (fetch c (record s₁ { raid_metadata = none; free_pages = suc k }) ≡ some (q, s₂))
        × (q.meta ≡ reset_cache c (initial c raid p.meta))
  fetch-init_raid state k one at live =
      let s₁ = all_saved.after in
      let down : System = record s₁ { raid_metadata = none; free_pages = suc k } in
      let on_disk : s₁.superblock 1 ≡ made.meta = all_saved.inside 0 (omega arith) one refl in
      (
        s₁,
        fetched c down,
        record down { free_pages = k; raid_metadata = some (fetched c down) },
        init_raid-after,
        fetch-none c down k state one has_block refl refl
            (ap (λ (m : Raid). get_elem? m.disk_state 1) on_disk
              ∙ ap (λ xs. get_elem? xs 1) (initial-states c raid p.meta)
              ∙ at)
            live,
        ap (reset_cache c) on_disk,
      )

-- The page of zeros that `destroy_raid` writes.
abbrev blank : Config → Page
blank c = filled_page c 0

destroy_fetch-some :
    (c : Config) (s : System) (p : Page) → initialized s ≡ some p → destroy_fetch c s ≡ some s
unfolding destroy_fetch
destroy_fetch-some c s p e = ground arith

destroy-steps :
    (c : Config) (s t : System) (p : Page)
    → initialized s ≡ some p
    → writeback c (blank c) s ≡ some t
    → destroy_raid c s
      ≡ some (success, record t { raid_metadata = none; free_pages = t.free_pages + 1 })
unfolding destroy_raid
destroy-steps c s t p e f = ground arith

info-steps :
    (c : Config) (s s' : System) (p : Page)
    → fetch c s ≡ some (p, s')
    → p.meta.raid_initialized ≡ 0
    → info_raid c s ≡ some (failure, none, s')
unfolding info_raid
info-steps c s s' p e f = ground arith

module _ (c : Config) (s : System) (p : Page) (in_use : initialized s ≡ some p)
    (has_block : 0 < c.disk_size / bsize) where
  wiped :
      Saves c
        (blank c)
        (omega arith)
        has_block
        0
        c.disks
        (dead_in c (blank c) (omega arith) has_block)
        (set_page s (blank c))
        (writeback c (blank c) s)
  wiped = writeback-Saves c (blank c) (omega arith) has_block s (length-replicate c.disks alive)

  abbrev gone : System
  gone = record wiped.after { raid_metadata = none; free_pages = wiped.after.free_pages + 1 }

  blank_alive : (j : ℕ) → j < c.disks → dead_in c (blank c) (omega arith) has_block j ≡ false
  blank_alive j j_in = ap is_dead (get_or-replicate c.disks j alive dead j_in)

  wiped_disk : (j : ℕ) → j < c.disks → gone.superblock (suc j) ≡ zero_raid c
  wiped_disk j j_in = wiped.inside j (omega arith) j_in (blank_alive j j_in)

  -- `destroy_raid` of a set that is in use, with at least two disks, succeeds: every disk holds
  -- zeros for metadata afterwards, no metadata is left in memory, and the next `info_raid` finds
  -- no set.
  pub info_raid-destroy_raid :
      2 ≤ c.disks
      → (s₁ : System) × (s₂ : System) × (destroy_raid c s ≡ some (success, s₁))
        × (s₁.raid_metadata ≡ none)
        × ((j : ℕ) → j < c.disks → s₁.superblock (suc j) ≡ zero_raid c)
        × (info_raid c s₁ ≡ some (failure, none, s₂))
  info_raid-destroy_raid two = (
    gone,
    record gone { free_pages = wiped.after.free_pages; raid_metadata = some (fetched c gone) },
    destroy-steps c s wiped.after p in_use wiped.returns,
    refl,
    wiped_disk,
    info-steps c gone
        (record gone { free_pages = wiped.after.free_pages; raid_metadata = some (fetched c gone) })
        (fetched c gone)
        (fetch-none c gone wiped.after.free_pages alive (omega arith) has_block refl
          (add-one wiped.after.free_pages)
          (ap (λ (m : Raid). get_elem? m.disk_state 1) (wiped_disk 0 (omega arith))
            ∙ get_elem?-replicate c.disks 1 alive (omega arith))
          refl)
        (ap (λ (m : Raid). m.raid_initialized) (wiped_disk 0 (omega arith))),
  )
