-- ===== src/Raid/Tests/Mirror.antt =====
-- A RAID 1 array of four disks with four blocks each.
use raid_system.Prelude.{
  ℕ, zero, suc, ◌<◌, ◌≡◌, ◌≢◌, inl, inr, refl, arith, false, none, some, [], ◌∷◌,
}
use raid_system.Raid.State.{
  Config, minus_one, is_dead, raid1, Transfer, zero_transfer, Raid, zero_raid, Array, success,
}
use raid_system.Raid.Places.{fail_disk}
use raid_system.Raid.Mirror.{read_raid1, write_raid1}
use raid_system.Raid.Mirror.Volume.{
  data_at, copy_at, state_of, IsDisk, Readable, Mirrors, put, write_raid1-Mirrors,
}
use raid_system.Raid.Mirror.Raid1.{read_raid1-fail_disk-write_raid1, write_raid1-fail_disk}

abbrev four : Config
four = record { disks = 4; disk_size = 4096 }

abbrev meta1 : Raid
meta1 = record (zero_raid four) {
  raid_initialized = 1;
  type = raid1;
  num_of_disks = 2;
  max_dead_disks = 3;
  data_disks = 1 ∷ 2 ∷ [];
  copy_disks = 3 ∷ 4 ∷ [];
  reserve_disk = minus_one;
}

abbrev message : Transfer
message = record { first = λ i. 9; second = λ i. 8 }

-- All blocks are zero.
abbrev empty : ℕ → Transfer
empty b = zero_transfer

abbrev array1 : Array
array1 = record {
  meta = meta1;
  slots = [];
  disk = λ d b. zero_transfer;
  superblock = λ d. meta1;
  user = message;
}

below_two : (P : ℕ → Type 0) → P 0 → P 1 → (i : ℕ) → i < 2 → P i
below_two P p q zero h = p
below_two P p q (suc zero) h = q
below_two P p q (suc (suc i)) h = absurd (omega arith)

array1-Readable : Readable four empty array1
array1-Readable = record {
  layout = record { some_disks = omega arith; states = refl; data_size = refl; copy_size = refl };
  data_disk = below_two (λ i. IsDisk four (data_at meta1 i)) (omega arith) (omega arith);
  data_alive = below_two (λ i. is_dead (state_of meta1 (data_at meta1 i)) ≡ false) refl refl;
  stored_data = λ b. refl;
}

data_inj : (i j : ℕ) → i < 2 → j < 2 → data_at meta1 i ≡ data_at meta1 j → i ≡ j
data_inj zero zero h k e = refl
data_inj zero (suc zero) h k e = absurd (omega arith)
data_inj (suc zero) zero h k e = absurd (omega arith)
data_inj (suc zero) (suc zero) h k e = refl
data_inj (suc (suc i)) j h k e = absurd (omega arith)
data_inj zero (suc (suc j)) h k e = absurd (omega arith)
data_inj (suc zero) (suc (suc j)) h k e = absurd (omega arith)

copy_inj : (i j : ℕ) → i < 2 → j < 2 → copy_at meta1 i ≡ copy_at meta1 j → i ≡ j
copy_inj zero zero h k e = refl
copy_inj zero (suc zero) h k e = absurd (omega arith)
copy_inj (suc zero) zero h k e = absurd (omega arith)
copy_inj (suc zero) (suc zero) h k e = refl
copy_inj (suc (suc i)) j h k e = absurd (omega arith)
copy_inj zero (suc (suc j)) h k e = absurd (omega arith)
copy_inj (suc zero) (suc (suc j)) h k e = absurd (omega arith)

array1-Mirrors : Mirrors four empty array1
array1-Mirrors = record {
  readable = array1-Readable;
  copy_disk = below_two (λ i. IsDisk four (copy_at meta1 i)) (omega arith) (omega arith);
  copy_alive = below_two (λ i. is_dead (state_of meta1 (copy_at meta1 i)) ≡ false) refl refl;
  stored_copy = λ b. refl;
  data_inj = data_inj;
  copy_inj = copy_inj;
  data-ne-copy = λ i j h k.
      below_two (λ i. data_at meta1 i ≢ copy_at meta1 j)
        (below_two (λ j. 1 ≢ copy_at meta1 j) (omega arith) (omega arith) j k)
        (below_two (λ j. 2 ≢ copy_at meta1 j) (omega arith) (omega arith) j k) i h;
}

write_raid1-Mirrors_example :
    (s' : Array) × (write_raid1 four 3 array1 ≡ some (success, s'))
    × (s'.meta ≡ meta1)
    × Mirrors four (put 3 message empty) s'
write_raid1-Mirrors_example = write_raid1-Mirrors four empty array1 array1-Mirrors 3 (omega arith)

-- Disk 2 is the primary of column 1.

read_raid1-fail_disk-write_raid1_example :
    (s' : Array) × (m : Raid) × (s'' : Array) × (write_raid1 four 3 array1 ≡ some (success, s'))
    × (fail_disk four 2 s'.meta ≡ some m)
    × (read_raid1 four 3 (record s' { meta = m }) ≡ some (success, s''))
    × (s''.user ≡ message)
read_raid1-fail_disk-write_raid1_example =
    read_raid1-fail_disk-write_raid1 four empty array1 3 3 1 2 array1-Mirrors refl refl
      (omega arith) (omega arith) (omega arith) (inl refl)

-- Disk 4 is the copy of column 1.
write_raid1-fail_disk_example :
    (m : Raid) × (fail_disk four 4 meta1 ≡ some m)
    × (write_raid1 four 3 (record array1 { meta = m }) ≡ none)
write_raid1-fail_disk_example =
    write_raid1-fail_disk four empty array1 1 4 3 array1-Mirrors refl refl (omega arith)
      (omega arith) (inr refl) refl (omega arith)
