-- ===== src/Raid/Tests/Parity.antt =====
-- A RAID 4 array of four disks with four blocks each.
use raid_system.Prelude.{
  ◌==◌, if◌then◌else◌, ℕ, zero, suc, ◌<◌, ◌≡◌, ◌≢◌, inl, refl, sym, ◌∙◌, arith, true, none, some,
  [], ◌∷◌, get_elem?,
}
use raid_system.Raid.State.{
  Config, alive, dead, is_dead, raid4, zero_block, zero_transfer, Transfer, Raid, zero_raid, Array,
  success,
}
use raid_system.Raid.Places.{fail_disk}
use raid_system.Raid.Parity.{read_raid4, write_raid4}
use raid_system.Raid.Parity.Cache.{slot_at, state_at, IsAlive}
use raid_system.Raid.Parity.Volume.{Volume, Holds}
use raid_system.Raid.Parity.Read.{Reads, read_raid4-Reads}
use raid_system.Raid.Parity.Write.{Writes}
use raid_system.Raid.Parity.Raid4.{write_raid4-Writes, write_raid4-stale, read_raid4-write_raid4}
use raid_system.Raid.Parity.Failure.{fail_disk-Holds}

abbrev four : Config
four = record { disks = 4; disk_size = 4096 }

-- The data disks hold 1, 2 and 4 at every offset, the parity disk 7.
abbrev ones : Volume
ones zero b = λ i. 1
ones (suc zero) b = λ i. 2
ones (suc (suc zero)) b = λ i. 4
ones (suc (suc (suc j))) b = λ i. 7

abbrev contents : ℕ → ℕ → Transfer
contents zero b = zero_transfer
contents (suc j) b = record { first = ones j b; second = zero_block }

abbrev meta4 : Raid
meta4 = record (zero_raid four) {
  raid_initialized = 1;
  type = raid4;
  num_of_disks = 3;
  max_dead_disks = 2;
  parity_disk = 3;
  cache = record { stripe = 1; parity_cached = 3; cached_data_disks = 0 ∷ 1 ∷ 2 ∷ 3 ∷ [] };
}

abbrev message : Transfer
message = record { first = λ i. 9; second = λ i. 8 }

-- Stripe 1 is cached.
abbrev array4 : Array
array4 = record {
  meta = meta4;
  slots = ones 0 1 ∷ ones 1 1 ∷ ones 2 1 ∷ ones 3 1 ∷ zero_block ∷ zero_block ∷ zero_block ∷ [];
  disk = contents;
  superblock = λ d. meta4;
  user = message;
}

four-pointers : (i : ℕ) → i < 4 → get_elem? (0 ∷ 1 ∷ 2 ∷ 3 ∷ []) i ≡ some i
four-pointers zero h = refl
four-pointers (suc zero) h = refl
four-pointers (suc (suc zero)) h = refl
four-pointers (suc (suc (suc zero))) h = refl
four-pointers (suc (suc (suc (suc i)))) h = absurd (omega arith)

all-IsAlive : (i : ℕ) → i < 4 → IsAlive meta4 i
all-IsAlive zero h = refl
all-IsAlive (suc zero) h = refl
all-IsAlive (suc (suc zero)) h = refl
all-IsAlive (suc (suc (suc zero))) h = refl
all-IsAlive (suc (suc (suc (suc i)))) h = absurd (omega arith)

four-slots : (j : ℕ) → j < 4 → slot_at array4.slots j ≡ ones j 1
four-slots zero h = refl
four-slots (suc zero) h = refl
four-slots (suc (suc zero)) h = refl
four-slots (suc (suc (suc zero))) h = refl
four-slots (suc (suc (suc (suc i)))) h = absurd (omega arith)

array4-Holds : Holds four ones array4
array4-Holds = record {
  layout = record {
    wired = record { states = refl; pointers = four-pointers };
    is_raid4 = refl;
    some_disks = omega arith;
    all_disks = refl;
    parity_last = refl;
    in_service = omega arith;
    one_dead = λ i j p q i_in j_in. absurd (cc (p, all-IsAlive i i_in));
  };
  room = omega arith;
  sums = λ b. refl;
  stored = λ j b j_in live on pos. refl;
  parity_cached = λ on. refl;
  slots_cached = λ on j j_in live. four-slots j j_in;
}

-- Block 4 is that of disk 2 in stripe 2, which is not cached.
read_raid4-Reads_example : Reads four ones array4 1 2 (read_raid4 four 4 array4)
read_raid4-Reads_example = read_raid4-Reads four ones array4 array4-Holds 4 (omega arith)

write_raid4-Writes_example : Writes four ones array4 1 2 (λ i. 9) (write_raid4 four 4 array4)
write_raid4-Writes_example =
    write_raid4-Writes four ones array4 array4-Holds 4 (omega arith) (inl (omega arith))

read_raid4-write_raid4_example :
    (s' : Array) × (s'' : Array) × (write_raid4 four 4 array4 ≡ some (success, s'))
    × (read_raid4 four 4 s' ≡ some (success, s''))
    × (s''.user.first ≡ (λ i. 9))
read_raid4-write_raid4_example =
    read_raid4-write_raid4 four ones array4 array4-Holds 4 4 (omega arith) (omega arith)
      (inl (omega arith))

fail_disk-Holds_example :
    (m : Raid) × (fail_disk four 2 meta4 ≡ some m)
    × ((j : ℕ)
        → j < 4
        → get_elem? m.disk_state j ≡ some (if j == 1 then dead else state_at meta4 j))
    × (m.num_dead_disks ≡ 1)
    × Holds four ones (record array4 { meta = m })
fail_disk-Holds_example =
    fail_disk-Holds four ones array4 1 array4-Holds (omega arith) all-IsAlive refl refl

-- Disk 2 is dead, and its slot holds something else than its block.
abbrev stale4 : Array
stale4 = record array4 {
  meta = record meta4 { disk_state = alive ∷ dead ∷ alive ∷ alive ∷ []; num_dead_disks = 1 };
  slots = ones 0 1 ∷ (λ i. 5) ∷ ones 2 1 ∷ ones 3 1 ∷ zero_block ∷ zero_block ∷ zero_block ∷ [];
}

only_two : (i : ℕ) → i < 4 → is_dead (state_at stale4.meta i) ≡ true → i ≡ 1
only_two zero h p = absurd (cc)
only_two (suc zero) h p = refl
only_two (suc (suc zero)) h p = absurd (cc)
only_two (suc (suc (suc zero))) h p = absurd (cc)
only_two (suc (suc (suc (suc i)))) h p = absurd (omega arith)

stale-slots : (j : ℕ) → j < 4 → IsAlive stale4.meta j → slot_at stale4.slots j ≡ ones j 1
stale-slots zero h p = refl
stale-slots (suc zero) h p = absurd (cc)
stale-slots (suc (suc zero)) h p = refl
stale-slots (suc (suc (suc zero))) h p = refl
stale-slots (suc (suc (suc (suc i)))) h p = absurd (omega arith)

stale4-Holds : Holds four ones stale4
stale4-Holds = record {
  layout = record {
    wired = record { states = refl; pointers = four-pointers };
    is_raid4 = refl;
    some_disks = omega arith;
    all_disks = refl;
    parity_last = refl;
    in_service = omega arith;
    one_dead = λ i j p q i_in j_in. only_two i i_in p ∙ sym (only_two j j_in q);
  };
  room = omega arith;
  sums = λ b. refl;
  stored = λ j b j_in live on pos. refl;
  parity_cached = λ on. refl;
  slots_cached = λ on j j_in live. stale-slots j j_in live;
}

-- The volume gets 5 ^ 2 ^ 9 for the 9 that was to be written.
write_raid4-stale_example : Writes four ones stale4 1 1 (λ i. 14) (write_raid4 four 1 stale4)
write_raid4-stale_example = write_raid4-stale four ones stale4 stale4-Holds 1 (omega arith) refl

-- A write to the dead disk, with another stripe in the cache, is read back by recovery.
recovered_write : write_raid4 four 4 stale4 ≢ none
unfolding write_raid4
recovered_write = cc
