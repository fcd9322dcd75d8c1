-- ===== src/Fs/Alloc/Bits.antt =====
-- One bit of a byte of the bitmap of kernel/fs.c.
use raid_system.Prelude.{ℕ, zero, suc, ◌+◌, ◌-◌, ◌/◌, ◌%◌, ◌^◌, ◌<◌, ◌≡◌, ◌≢◌, arith}

below_eight :
    (P : ℕ → Type 0) → P 0 → P 1 → P 2 → P 3 → P 4 → P 5 → P 6 → P 7 → (k : ℕ) → k < 8 → P k
below_eight P a b c d e f g h zero lt = a
below_eight P a b c d e f g h (suc zero) lt = b
below_eight P a b c d e f g h (suc (suc zero)) lt = c
below_eight P a b c d e f g h (suc (suc (suc zero))) lt = d
below_eight P a b c d e f g h (suc (suc (suc (suc zero)))) lt = e
below_eight P a b c d e f g h (suc (suc (suc (suc (suc zero))))) lt = f
below_eight P a b c d e f g h (suc (suc (suc (suc (suc (suc zero)))))) lt = g
below_eight P a b c d e f g h (suc (suc (suc (suc (suc (suc (suc zero))))))) lt = h
below_eight P a b c d e f g h (suc (suc (suc (suc (suc (suc (suc (suc k)))))))) lt =
    absurd (omega arith)

-- Setting a clear bit sets it.
pub set_bit : (k : ℕ) → k < 8 → (x : ℕ) → x / 2 ^ k % 2 ≡ 0 → (x + 2 ^ k) / 2 ^ k % 2 ≡ 1
set_bit =
    below_eight (λ k. (x : ℕ) → x / 2 ^ k % 2 ≡ 0 → (x + 2 ^ k) / 2 ^ k % 2 ≡ 1)
      (λ x e. omega arith) (λ x e. omega arith) (λ x e. omega arith) (λ x e. omega arith)
      (λ x e. omega arith) (λ x e. omega arith) (λ x e. omega arith) (λ x e. omega arith)

-- Clearing a set bit clears it.
pub clear_bit : (k : ℕ) → k < 8 → (x : ℕ) → x / 2 ^ k % 2 ≢ 0 → (x - 2 ^ k) / 2 ^ k % 2 ≡ 0
clear_bit =
    below_eight (λ k. (x : ℕ) → x / 2 ^ k % 2 ≢ 0 → (x - 2 ^ k) / 2 ^ k % 2 ≡ 0)
      (λ x e. omega arith) (λ x e. omega arith) (λ x e. omega arith) (λ x e. omega arith)
      (λ x e. omega arith) (λ x e. omega arith) (λ x e. omega arith) (λ x e. omega arith)

set_bit_ne_from :
    (k : ℕ)
    → k < 8
    → (j : ℕ) → j < 8
    → k ≢ j
    → (x : ℕ) → x / 2 ^ k % 2 ≡ 0
    → (x + 2 ^ k) / 2 ^ j % 2 ≡ x / 2 ^ j % 2
set_bit_ne_from =
    below_eight
      (λ k.
        (j : ℕ)
        → j < 8
        → k ≢ j
        → (x : ℕ) → x / 2 ^ k % 2 ≡ 0
        → (x + 2 ^ k) / 2 ^ j % 2 ≡ x / 2 ^ j % 2)
      (below_eight
        (λ j. 0 ≢ j → (x : ℕ) → x / 2 ^ 0 % 2 ≡ 0 → (x + 2 ^ 0) / 2 ^ j % 2 ≡ x / 2 ^ j % 2)
        (λ ne x e. omega arith) (λ ne x e. omega arith) (λ ne x e. omega arith)
        (λ ne x e. omega arith) (λ ne x e. omega arith) (λ ne x e. omega arith)
        (λ ne x e. omega arith) (λ ne x e. omega arith))
      (below_eight
        (λ j. 1 ≢ j → (x : ℕ) → x / 2 ^ 1 % 2 ≡ 0 → (x + 2 ^ 1) / 2 ^ j % 2 ≡ x / 2 ^ j % 2)
        (λ ne x e. omega arith) (λ ne x e. omega arith) (λ ne x e. omega arith)
        (λ ne x e. omega arith) (λ ne x e. omega arith) (λ ne x e. omega arith)
        (λ ne x e. omega arith) (λ ne x e. omega arith))
      (below_eight
        (λ j. 2 ≢ j → (x : ℕ) → x / 2 ^ 2 % 2 ≡ 0 → (x + 2 ^ 2) / 2 ^ j % 2 ≡ x / 2 ^ j % 2)
        (λ ne x e. omega arith) (λ ne x e. omega arith) (λ ne x e. omega arith)
        (λ ne x e. omega arith) (λ ne x e. omega arith) (λ ne x e. omega arith)
        (λ ne x e. omega arith) (λ ne x e. omega arith))
      (below_eight
        (λ j. 3 ≢ j → (x : ℕ) → x / 2 ^ 3 % 2 ≡ 0 → (x + 2 ^ 3) / 2 ^ j % 2 ≡ x / 2 ^ j % 2)
        (λ ne x e. omega arith) (λ ne x e. omega arith) (λ ne x e. omega arith)
        (λ ne x e. omega arith) (λ ne x e. omega arith) (λ ne x e. omega arith)
        (λ ne x e. omega arith) (λ ne x e. omega arith))
      (below_eight
        (λ j. 4 ≢ j → (x : ℕ) → x / 2 ^ 4 % 2 ≡ 0 → (x + 2 ^ 4) / 2 ^ j % 2 ≡ x / 2 ^ j % 2)
        (λ ne x e. omega arith) (λ ne x e. omega arith) (λ ne x e. omega arith)
        (λ ne x e. omega arith) (λ ne x e. omega arith) (λ ne x e. omega arith)
        (λ ne x e. omega arith) (λ ne x e. omega arith))
      (below_eight
        (λ j. 5 ≢ j → (x : ℕ) → x / 2 ^ 5 % 2 ≡ 0 → (x + 2 ^ 5) / 2 ^ j % 2 ≡ x / 2 ^ j % 2)
        (λ ne x e. omega arith) (λ ne x e. omega arith) (λ ne x e. omega arith)
        (λ ne x e. omega arith) (λ ne x e. omega arith) (λ ne x e. omega arith)
        (λ ne x e. omega arith) (λ ne x e. omega arith))
      (below_eight
        (λ j. 6 ≢ j → (x : ℕ) → x / 2 ^ 6 % 2 ≡ 0 → (x + 2 ^ 6) / 2 ^ j % 2 ≡ x / 2 ^ j % 2)
        (λ ne x e. omega arith) (λ ne x e. omega arith) (λ ne x e. omega arith)
        (λ ne x e. omega arith) (λ ne x e. omega arith) (λ ne x e. omega arith)
        (λ ne x e. omega arith) (λ ne x e. omega arith))
      (below_eight
        (λ j. 7 ≢ j → (x : ℕ) → x / 2 ^ 7 % 2 ≡ 0 → (x + 2 ^ 7) / 2 ^ j % 2 ≡ x / 2 ^ j % 2)
        (λ ne x e. omega arith) (λ ne x e. omega arith) (λ ne x e. omega arith)
        (λ ne x e. omega arith) (λ ne x e. omega arith) (λ ne x e. omega arith)
        (λ ne x e. omega arith) (λ ne x e. omega arith))

-- Setting a clear bit leaves the others.
pub set_bit_ne :
    (k j x : ℕ)
    → k < 8
    → j < 8
    → k ≢ j
    → x / 2 ^ k % 2 ≡ 0
    → (x + 2 ^ k) / 2 ^ j % 2 ≡ x / 2 ^ j % 2
set_bit_ne k j x hk hj ne e = set_bit_ne_from k hk j hj ne x e

clear_bit_ne_from :
    (k : ℕ)
    → k < 8
    → (j : ℕ) → j < 8
    → k ≢ j
    → (x : ℕ) → x / 2 ^ k % 2 ≢ 0
    → (x - 2 ^ k) / 2 ^ j % 2 ≡ x / 2 ^ j % 2
clear_bit_ne_from =
    below_eight
      (λ k.
        (j : ℕ)
        → j < 8
        → k ≢ j
        → (x : ℕ) → x / 2 ^ k % 2 ≢ 0
        → (x - 2 ^ k) / 2 ^ j % 2 ≡ x / 2 ^ j % 2)
      (below_eight
        (λ j. 0 ≢ j → (x : ℕ) → x / 2 ^ 0 % 2 ≢ 0 → (x - 2 ^ 0) / 2 ^ j % 2 ≡ x / 2 ^ j % 2)
        (λ ne x e. omega arith) (λ ne x e. omega arith) (λ ne x e. omega arith)
        (λ ne x e. omega arith) (λ ne x e. omega arith) (λ ne x e. omega arith)
        (λ ne x e. omega arith) (λ ne x e. omega arith))
      (below_eight
        (λ j. 1 ≢ j → (x : ℕ) → x / 2 ^ 1 % 2 ≢ 0 → (x - 2 ^ 1) / 2 ^ j % 2 ≡ x / 2 ^ j % 2)
        (λ ne x e. omega arith) (λ ne x e. omega arith) (λ ne x e. omega arith)
        (λ ne x e. omega arith) (λ ne x e. omega arith) (λ ne x e. omega arith)
        (λ ne x e. omega arith) (λ ne x e. omega arith))
      (below_eight
        (λ j. 2 ≢ j → (x : ℕ) → x / 2 ^ 2 % 2 ≢ 0 → (x - 2 ^ 2) / 2 ^ j % 2 ≡ x / 2 ^ j % 2)
        (λ ne x e. omega arith) (λ ne x e. omega arith) (λ ne x e. omega arith)
        (λ ne x e. omega arith) (λ ne x e. omega arith) (λ ne x e. omega arith)
        (λ ne x e. omega arith) (λ ne x e. omega arith))
      (below_eight
        (λ j. 3 ≢ j → (x : ℕ) → x / 2 ^ 3 % 2 ≢ 0 → (x - 2 ^ 3) / 2 ^ j % 2 ≡ x / 2 ^ j % 2)
        (λ ne x e. omega arith) (λ ne x e. omega arith) (λ ne x e. omega arith)
        (λ ne x e. omega arith) (λ ne x e. omega arith) (λ ne x e. omega arith)
        (λ ne x e. omega arith) (λ ne x e. omega arith))
      (below_eight
        (λ j. 4 ≢ j → (x : ℕ) → x / 2 ^ 4 % 2 ≢ 0 → (x - 2 ^ 4) / 2 ^ j % 2 ≡ x / 2 ^ j % 2)
        (λ ne x e. omega arith) (λ ne x e. omega arith) (λ ne x e. omega arith)
        (λ ne x e. omega arith) (λ ne x e. omega arith) (λ ne x e. omega arith)
        (λ ne x e. omega arith) (λ ne x e. omega arith))
      (below_eight
        (λ j. 5 ≢ j → (x : ℕ) → x / 2 ^ 5 % 2 ≢ 0 → (x - 2 ^ 5) / 2 ^ j % 2 ≡ x / 2 ^ j % 2)
        (λ ne x e. omega arith) (λ ne x e. omega arith) (λ ne x e. omega arith)
        (λ ne x e. omega arith) (λ ne x e. omega arith) (λ ne x e. omega arith)
        (λ ne x e. omega arith) (λ ne x e. omega arith))
      (below_eight
        (λ j. 6 ≢ j → (x : ℕ) → x / 2 ^ 6 % 2 ≢ 0 → (x - 2 ^ 6) / 2 ^ j % 2 ≡ x / 2 ^ j % 2)
        (λ ne x e. omega arith) (λ ne x e. omega arith) (λ ne x e. omega arith)
        (λ ne x e. omega arith) (λ ne x e. omega arith) (λ ne x e. omega arith)
        (λ ne x e. omega arith) (λ ne x e. omega arith))
      (below_eight
        (λ j. 7 ≢ j → (x : ℕ) → x / 2 ^ 7 % 2 ≢ 0 → (x - 2 ^ 7) / 2 ^ j % 2 ≡ x / 2 ^ j % 2)
        (λ ne x e. omega arith) (λ ne x e. omega arith) (λ ne x e. omega arith)
        (λ ne x e. omega arith) (λ ne x e. omega arith) (λ ne x e. omega arith)
        (λ ne x e. omega arith) (λ ne x e. omega arith))

-- Clearing a set bit leaves the others.
pub clear_bit_ne :
    (k j x : ℕ)
    → k < 8
    → j < 8
    → k ≢ j
    → x / 2 ^ k % 2 ≢ 0
    → (x - 2 ^ k) / 2 ^ j % 2 ≡ x / 2 ^ j % 2
clear_bit_ne k j x hk hj ne e = clear_bit_ne_from k hk j hj ne x e
