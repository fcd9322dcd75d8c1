-- ===== src/Raid/Rotating/Layout.antt =====
-- Where RAID 5 puts its blocks.
use native.Mathlib.Decide.{dec_lt}
use native.Mathlib.Nat.{mod-eq_of_lt, mod-eq-sub-mod}
use raid_system.Prelude.{
  ℕ, ◌+◌, ◌-◌, ◌/◌, ◌%◌, ◌^◌, ◌≤◌, ◌<◌, ◌≡◌, ◌≢◌, ◌⊎◌, inl, inr, ap, ◌∙◌, arith, mod-lt_ne,
}
use raid_system.Raid.State.{sub_uint}
use raid_system.Raid.Rotating.{stripe_of, parity_diskn, data_index}

-- A sum that passes `n` at most once.
mod-wrap : (n x : ℕ) → x < n + n → ((x < n) × (x % n ≡ x)) ⊎ ((n ≤ x) × (x % n ≡ x - n))
mod-wrap n x h = elim (dec_lt x n) [
  | yes p ↦ inl (p, mod-eq_of_lt p)
  | no p ↦ inr (
    omega arith,
    mod-eq-sub-mod {n = x} {m = n} (omega arith) ∙ mod-eq_of_lt {n = x - n} {m = n} (omega arith),
  )
]

module _ (n : ℕ) (two : 2 ≤ n) (few : n < 2 ^ 31) where
  pred-n : sub_uint n 1 ≡ n - 1
  pred-n = omega arith

  -- The parity disk, numbered from 1.
  parity_range : (stripe : ℕ) → (1 ≤ parity_diskn n stripe) × (parity_diskn n stripe ≤ n)
  unfolding parity_diskn
  parity_range stripe = omega (arith, mod-lt_ne (stripe - 1) n (omega arith))

  offset_lt : (blkn : ℕ) → blkn % sub_uint n 1 < n - 1
  offset_lt blkn = omega (arith, mod-lt_ne blkn (sub_uint n 1) (omega arith), pred-n)

  abbrev parity : ℕ → ℕ
  parity blkn = parity_diskn n (stripe_of n blkn)

  -- The index is the parity's number plus the offset, round the disks once.
  data_index-wrap :
      (blkn : ℕ)
      → ((parity blkn + blkn % sub_uint n 1 < n)
          × (data_index n blkn ≡ parity blkn + blkn % sub_uint n 1))
        ⊎ ((n ≤ parity blkn + blkn % sub_uint n 1)
            × (data_index n blkn ≡ parity blkn + blkn % sub_uint n 1 - n))
  unfolding data_index
  data_index-wrap blkn =
      let range = parity_range (stripe_of n blkn) in
      let low = offset_lt blkn in
      let x = parity blkn + blkn % sub_uint n 1 in
      let small : x % 2 ^ 32 ≡ x = mod-eq_of_lt (omega arith) in
      rw small (mod-wrap n x (omega arith))

  -- A data block lies on one of the disks and never on the parity disk of its stripe, whose
  -- number is in range too.
  pub data_index-ne-parity :
      (blkn : ℕ)
      → (data_index n blkn < n)
        × (parity_diskn n (stripe_of n blkn) - 1 < n)
        × (data_index n blkn ≢ parity_diskn n (stripe_of n blkn) - 1)
  data_index-ne-parity blkn = (
    omega (arith, data_index-wrap blkn, parity_range (stripe_of n blkn), offset_lt blkn),
    omega (arith, parity_range (stripe_of n blkn)),
    omega (arith, data_index-wrap blkn, parity_range (stripe_of n blkn), offset_lt blkn),
  )

  same_offset :
      (a b : ℕ)
      → stripe_of n a ≡ stripe_of n b
      → data_index n a ≡ data_index n b
      → a % sub_uint n 1 ≡ b % sub_uint n 1
  same_offset a b same h = omega (
    arith,
    ap (parity_diskn n) same,
    data_index-wrap a,
    data_index-wrap b,
    parity_range (stripe_of n a),
    offset_lt a,
    offset_lt b,
  )

  quotient : (a b : ℕ) → stripe_of n a ≡ stripe_of n b → a / sub_uint n 1 ≡ b / sub_uint n 1
  unfolding stripe_of
  quotient a b h = omega arith

  -- Two blocks with the same stripe and the same disk are one block.
  pub data_index_inj :
      (a b : ℕ) → stripe_of n a ≡ stripe_of n b → data_index n a ≡ data_index n b → a ≡ b
  data_index_inj a b same h =
      division a b (sub_uint n 1) (quotient a b same) (same_offset a b same h)
    where
      division : (a b k : ℕ) → a / k ≡ b / k → a % k ≡ b % k → a ≡ b
      division a b k p q = grind arith
