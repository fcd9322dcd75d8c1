-- ===== src/Raid/Control/Persist.antt =====
-- `init_raid` and `destroy_raid` against a later `fetch`: what the disks remember.
use raid_system.Prelude.{
  ℕ, zero, suc, ◌+◌, ◌/◌, ◌≤◌, ◌<◌, ◌≡◌, ◌≢◌, refl, ap, arith, false, none, some, List, [], ◌∷◌,
  length, get_elem?, set, replicate,
}
use raid_system.Raid.State.{Config, bsize, page_slots, DiskState, is_dead, zero_block, Raid}
use raid_system.Raid.Device.{◌>>=◌}
use raid_system.Raid.System.{
  Page, System, set_page, initialized, alloc_page, filled_page, read_meta, write_meta, fetch_from,
  reset_cache, fetch,
}
use raid_system.Raid.System.Laws.{saved, write_meta_lem, Saves, Saves-step, Saves-none}
use raid_system.Raid.Control.{set_pointer, init_disks}

set-same : (xs : List ℕ) (i v : ℕ) → get_elem? xs i ≡ some v → set xs i v ≡ xs
set-same [] i v h = refl
set-same (x ∷ xs) zero v h = let e : v ≡ x = cc in ap (λ t. t ∷ xs) e
set-same (x ∷ xs) (suc i) v h = ap (λ t. x ∷ t) (set-same xs i v h)

-- The pointers of `fetch`.
abbrev pub HasPointers : Config → Raid → Type 0
HasPointers c m = (i : ℕ) → i < c.disks → get_elem? m.cache.cached_data_disks i ≡ some i

set_pointer_lem :
    (c : Config) (i : ℕ) (p : Page) → HasPointers c p.meta → i < c.disks → set_pointer c i p ≡ p
set_pointer_lem c i p h i_in =
    ap
      (λ xs. record p {
        meta = record p.meta { cache = record p.meta.cache { cached_data_disks = xs } };
      })
      (set-same p.meta.cache.cached_data_disks i i (h i i_in))

init_disks-suc :
    (c : Config) (n i : ℕ) (p : Page) (s : System)
    → init_disks c (suc n) i p s ≡ (do
      s' ← write_meta c (suc i) (set_pointer c i p) (set_page s (set_pointer c i p))
      init_disks c n (suc i) (set_pointer c i p) s')
unfolding init_disks
init_disks-suc c n i p s = refl

module _ (c : Config) (p : Page) (has_slot : 0 < length p.slots)
    (has_block : 0 < c.disk_size / bsize) (h : HasPointers c p.meta) where
  -- The last loop of `init_raid` writes every disk.
  pub init_disks-Saves :
      (n lo hi : ℕ) (s : System)
      → lo + n ≡ hi
      → hi ≤ c.disks
      → Saves c p has_slot has_block lo hi
          (λ _. false)
          (set_page s p)
          (init_disks c n lo p (set_page s p))
  init_disks-Saves zero lo hi s e k =
      unfold init_disks in
      Saves-none c p has_slot has_block lo hi (λ _. false) (set_page s p) (omega arith)
  init_disks-Saves (suc n) lo hi s e k =
      rw
        (
          init_disks-suc,
          set_pointer_lem c lo p h (omega arith),
          write_meta_lem c p has_slot has_block (suc lo) (set_page s p) (omega arith) (omega arith),
        )
        (Saves-step c p has_slot has_block lo hi (λ _. false) (set_page s p) refl
          (init_disks-Saves n (suc lo) hi (saved c p has_slot has_block (suc lo) s) (omega arith)
            k))

-- `fetch` takes the metadata of disk 1 if that does not say that disk 2 is dead.
fetch_from-first :
    (c : Config) (n : ℕ) (s : System) (p : Page)
    → n ≢ 0
    → 0 < c.disks
    → 0 < c.disk_size / bsize
    → (state : DiskState) → get_elem? (s.superblock 1).disk_state 1 ≡ some state
    → is_dead state ≡ false
    → fetch_from c n 1 s p
      ≡ some (record { meta = s.superblock 1; slots = set p.slots 0 (s.disk 1 0).second })
unfolding fetch_from read_meta
fetch_from-first c zero s p ne one fits state e live = absurd (ne refl)
fetch_from-first c (suc n) s p ne one fits state e live = ground arith

-- The page that `fetch` makes of what disk 1 holds.
abbrev pub fetched : Config → System → Page
fetched c s = record {
  meta = reset_cache c (s.superblock 1);
  slots = set (replicate page_slots zero_block) 0 (s.disk 1 0).second;
}

initialized-none : (s : System) → s.raid_metadata ≡ none → initialized s ≡ none
initialized-none s e = ground arith

alloc_page-suc :
    (s : System) (k : ℕ) → s.free_pages ≡ suc k → alloc_page s ≡ some (record s { free_pages = k })
unfolding alloc_page
alloc_page-suc s k e = ground arith

fetch-steps :
    (c : Config) (s s' : System) (p : Page)
    → initialized s ≡ none
    → alloc_page s ≡ some s'
    → fetch_from c c.disks 1 s' (filled_page c 0) ≡ some p
    → fetch c s
      ≡ some (
        record p { meta = reset_cache c p.meta },
        set_page s' (record p { meta = reset_cache c p.meta }),
      )
unfolding fetch
fetch-steps c s s' p e f g = ground arith

-- `fetch` when there is no metadata in memory, and a page is left.
pub fetch-none :
    (c : Config) (s : System) (k : ℕ) (state : DiskState)
    → 0 < c.disks
    → 0 < c.disk_size / bsize
    → s.raid_metadata ≡ none
    → s.free_pages ≡ suc k
    → get_elem? (s.superblock 1).disk_state 1 ≡ some state
    → is_dead state ≡ false
    → fetch c s
      ≡ some (fetched c s, record s { free_pages = k; raid_metadata = some (fetched c s) })
fetch-none c s k state one fits empty page e live =
    fetch-steps c s (record s { free_pages = k })
      (record {
        meta = s.superblock 1;
        slots = set (replicate page_slots zero_block) 0 (s.disk 1 0).second;
      })
      (initialized-none s empty) (alloc_page-suc s k page)
      (fetch_from-first c c.disks (record s { free_pages = k }) (filled_page c 0) (omega arith) one
        fits state e live)
