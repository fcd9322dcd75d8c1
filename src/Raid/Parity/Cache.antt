-- ===== src/Raid/Parity/Cache.antt =====
-- What `cache` leaves in the slots of the metadata page.
use native.Mathlib.Decide.{ℕ_discrete}
use raid_system.Prelude.{
  ℕ, zero, suc, ◌+◌, ◌≤◌, ◌<◌, ◌/◌, ◌≡◌, inl, inr, refl, ◌∙◌, ap, arith, true, false, Option, some,
  List, length, get_elem?, get_or, set, get_elem?-eq-get_or, get_or-set_self, get_or-set_ne,
  length-set, Bool-cases,
}
use raid_system.Raid.State.{Config, bsize, DiskState, dead, is_dead, Block, zero_block, Raid, Array}
use raid_system.Raid.Device.{on_device, read_cached}
use raid_system.Raid.Parity.{read_if_alive, cache_from}

abbrev pub slot_at : List Block → ℕ → Block
slot_at xs i = get_or xs i zero_block

abbrev pub state_at : Raid → ℕ → DiskState
state_at m i = get_or m.disk_state i dead

abbrev pub IsAlive : Raid → ℕ → Type 0
IsAlive m i = is_dead (state_at m i) ≡ false

-- The arrays of `struct raid` have an entry for each disk, and the pointers are those of `fetch`.
pub record IsWired (c : Config) (m : Raid) : Type 0 where
  pub states : length m.disk_state ≡ c.disks
  pub pointers : (i : ℕ) → i < c.disks → get_elem? m.cache.cached_data_disks i ≡ some i

abbrev pub IsOnDisk : Config → ℕ → Type 0
IsOnDisk c b = b < c.disk_size / bsize

-- `s` with other slots.
abbrev pub with_slots : Array → List Block → Array
with_slots s xs = record s { slots = xs }

pub on_device-true :
    (c : Config) (i b : ℕ) → i < c.disks → IsOnDisk c b → on_device c (suc i) b ≡ true
on_device-true c i b h k = ground arith

module _ (c : Config) (s : Array) (wired : IsWired c s.meta) (b : ℕ) (fits : IsOnDisk c b) where
  -- A block that is read fills its slot and the one behind it.
  abbrev pub filled : ℕ → List Block → List Block
  filled i xs = set (set xs i (s.disk (suc i) b).first) (suc i) (s.disk (suc i) b).second

  read_cached_lem :
      (i : ℕ) (xs : List Block)
      → i < c.disks
      → c.disks < length xs
      → read_cached c i b (with_slots s xs) ≡ some (with_slots s (filled i xs))
  unfolding read_cached
  read_cached_lem i xs h room = ground (
    arith,
    wired.pointers i h,
    on_device-true c i b h fits,
    get_elem?-eq-get_or xs (suc i) zero_block (omega arith),
  )

  -- Reading disk `i + 1` unless it is dead.
  pub read_if_alive-alive :
      (i : ℕ) (xs : List Block)
      → i < c.disks
      → c.disks < length xs
      → IsAlive s.meta i
      → read_if_alive c i b (with_slots s xs) ≡ some (with_slots s (filled i xs))
  unfolding read_if_alive
  read_if_alive-alive i xs h room alive = ground (
    arith,
    get_elem?-eq-get_or s.meta.disk_state i dead (rw wired.states h),
    read_cached_lem i xs h room,
  )

  pub read_if_alive-dead :
      (i : ℕ) (xs : List Block)
      → i < c.disks
      → is_dead (state_at s.meta i) ≡ true
      → read_if_alive c i b (with_slots s xs) ≡ some (with_slots s xs)
  unfolding read_if_alive
  read_if_alive-dead i xs h gone =
      ground (arith, get_elem?-eq-get_or s.meta.disk_state i dead (rw wired.states h))

  -- The disks from `lo` up to `hi` are in their slots, those that are alive, and the slots below
  -- `lo` are as they were.
  pub record IsLoaded (lo hi : ℕ) (xs : List Block) (result : Option Array) : Type 0 where
    pub out : List Block
    pub returns : result ≡ some (with_slots s out)
    pub same_length : length out ≡ length xs
    pub inside :
        (j : ℕ) → lo ≤ j → j < hi → IsAlive s.meta j → slot_at out j ≡ (s.disk (suc j) b).first
    pub outside : (j : ℕ) → j < lo → slot_at out j ≡ slot_at xs j

  pub length-filled : (i : ℕ) (xs : List Block) → length (filled i xs) ≡ length xs
  length-filled i xs = length-set (set xs i _) (suc i) _ ∙ length-set xs i _

  pub slot_at-filled_below :
      (i j : ℕ) (xs : List Block) → j < i → slot_at (filled i xs) j ≡ slot_at xs j
  slot_at-filled_below i j xs h =
      get_or-set_ne (set xs i _) (suc i) j _ zero_block (omega arith)
      ∙ get_or-set_ne xs i j _ zero_block (omega arith)

  pub slot_at-filled_self :
      (i : ℕ) (xs : List Block) → i < length xs → slot_at (filled i xs) i ≡ (s.disk (suc i) b).first
  slot_at-filled_self i xs h =
      get_or-set_ne (set xs i _) (suc i) i _ zero_block (omega arith)
      ∙ get_or-set_self xs i _ zero_block h

  pub slot_at-filled_behind :
      (i : ℕ) (xs : List Block)
      → suc i < length xs
      → slot_at (filled i xs) (suc i) ≡ (s.disk (suc i) b).second
  slot_at-filled_behind i xs h = get_or-set_self (set xs i _) (suc i) _ zero_block (rw length-set h)

  -- One more disk in front.
  IsLoaded-alive :
      (i hi : ℕ) (xs : List Block) {result : Option Array}
      → i < length xs
      → IsLoaded (suc i) hi (filled i xs) result
      → IsLoaded i hi xs result
  IsLoaded-alive i hi xs room rest = record {
    out = rest.out;
    returns = rest.returns;
    same_length = rest.same_length ∙ length-filled i xs;
    inside = λ j p q alive. elim (ℕ_discrete i j) [
      | yes e ↦ rw (← e) (rest.outside i (omega arith) ∙ slot_at-filled_self i xs room)
      | no ne ↦ rest.inside j (omega arith) q alive
    ];
    outside = λ j p. rest.outside j (omega arith) ∙ slot_at-filled_below i j xs p;
  }

  IsLoaded-dead :
      (i hi : ℕ) (xs : List Block) {result : Option Array}
      → is_dead (state_at s.meta i) ≡ true
      → IsLoaded (suc i) hi xs result
      → IsLoaded i hi xs result
  IsLoaded-dead i hi xs gone rest = record {
    out = rest.out;
    returns = rest.returns;
    same_length = rest.same_length;
    inside = λ j p q alive. elim (ℕ_discrete i j) [
      | yes e ↦ absurd (cc (ap (λ k. is_dead (state_at s.meta k)) e))
      | no ne ↦ rest.inside j (omega arith) q alive
    ];
    outside = λ j p. rest.outside j (omega arith);
  }

  pub cache_from-IsLoaded :
      (n i hi : ℕ) (xs : List Block)
      → i + n ≡ hi
      → hi ≤ c.disks
      → c.disks < length xs
      → IsLoaded i hi xs (cache_from c b n i (with_slots s xs))
  unfolding cache_from
  cache_from-IsLoaded zero i hi xs e h room = record {
    out = xs;
    returns = refl;
    same_length = refl;
    inside = λ j p q. absurd (omega arith);
    outside = λ j p. refl;
  }
  cache_from-IsLoaded (suc n) i hi xs e h room = elim (Bool-cases (is_dead (state_at s.meta i))) [
    | inl gone ↦
        rw (read_if_alive-dead i xs (omega arith) gone)
          (IsLoaded-dead i hi xs gone (cache_from-IsLoaded n (suc i) hi xs (omega arith) h room))
    | inr alive ↦ rw (read_if_alive-alive i xs (omega arith) room alive) (
        IsLoaded-alive i hi xs (omega arith) (
          cache_from-IsLoaded n (suc i) hi (filled i xs) (omega arith) h
            (rw (length-filled i xs) room)))
  ]
