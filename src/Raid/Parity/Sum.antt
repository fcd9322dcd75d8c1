-- ===== src/Raid/Parity/Sum.antt =====
-- The exclusive or of the blocks of a stripe, as the loops of kernel/raid_rw.c build it.
use raid_system.Prelude.{
  ℕ, zero, suc, ◌+◌, ◌≤◌, ◌<◌, ◌≡◌, ◌≢◌, refl, sym, ◌∙◌, ap, fun_ext, arith, ◌==◌, if◌then◌else◌,
  ==_eq, ==_ne,
}
use native.Mathlib.Decide.{ℕ_discrete}
use raid_system.Prelude.Xor.{bit_xor_assoc, bit_xor_comm, bit_xor_self, bit_xor-zero}
use raid_system.Raid.State.{Block, xor_block, zero_block}

pub xor_block_assoc : (a b c : Block) → xor_block (xor_block a b) c ≡ xor_block a (xor_block b c)
xor_block_assoc a b c = fun_ext λ i. bit_xor_assoc (a i) (b i) (c i)

pub xor_block_comm : (a b : Block) → xor_block a b ≡ xor_block b a
xor_block_comm a b = fun_ext λ i. bit_xor_comm (a i) (b i)

pub xor_block_self : (a : Block) → xor_block a a ≡ zero_block
xor_block_self a = fun_ext λ i. bit_xor_self (a i)

pub xor_block-zero : (a : Block) → xor_block a zero_block ≡ a
xor_block-zero a = fun_ext λ i. bit_xor-zero (a i)

-- A block that is put in twice is gone.
pub xor_block_cancel : (a b : Block) → xor_block (xor_block a b) b ≡ a
xor_block_cancel a b =
    xor_block_assoc a b b ∙ ap (xor_block a) (xor_block_self b) ∙ xor_block-zero a

xor_block_swap : (a b c : Block) → xor_block (xor_block a b) c ≡ xor_block (xor_block a c) b
xor_block_swap a b c =
    xor_block_assoc a b c ∙ ap (xor_block a) (xor_block_comm b c) ∙ sym (xor_block_assoc a c b)

-- The exclusive or of `acc` and of the `n` blocks from `f j` on.
abbrev pub sum_from : (ℕ → Block) → ℕ → ℕ → Block → Block
sum_from f zero j acc = acc
sum_from f (suc n) j acc = sum_from f n (suc j) (xor_block acc (f j))

-- The same without block `d`.
abbrev pub others_from : ℕ → (ℕ → Block) → ℕ → ℕ → Block → Block
others_from d f zero j acc = acc
others_from d f (suc n) j acc =
    others_from d f n (suc j) (if d == j then acc else xor_block acc (f j))

sum_from-xor :
    (f : ℕ → Block) (n j : ℕ) (acc x : Block)
    → sum_from f n j (xor_block acc x) ≡ xor_block (sum_from f n j acc) x
sum_from-xor f zero j acc x = refl
sum_from-xor f (suc n) j acc x =
    ap (sum_from f n (suc j)) (xor_block_swap acc x (f j))
    ∙ sum_from-xor f n (suc j) (xor_block acc (f j)) x

others_from-above :
    (d : ℕ) (f : ℕ → Block) (n j : ℕ) (acc : Block)
    → d < j
    → others_from d f n j acc ≡ sum_from f n j acc
others_from-above d f zero j acc h = refl
others_from-above d f (suc n) j acc h =
    rw (==_ne d j (omega arith))
      (others_from-above d f n (suc j) (xor_block acc (f j)) (omega arith))

-- The others and block `d` make up the whole.
pub others_from-sum :
    (d : ℕ) (f : ℕ → Block) (n j : ℕ) (acc : Block)
    → j ≤ d
    → d < j + n
    → sum_from f n j acc ≡ xor_block (others_from d f n j acc) (f d)
others_from-sum d f zero j acc h k = absurd (omega arith)
others_from-sum d f (suc n) j acc h k = elim (ℕ_discrete d j) [
  | yes e ↦
      rw (==_eq d j e, others_from-above d f n (suc j) acc (omega arith), ap f e)
        (sum_from-xor f n (suc j) acc (f j))
  | no ne ↦
      rw (==_ne d j ne)
        (others_from-sum d f n (suc j) (xor_block acc (f j)) (omega arith) (omega arith))
]

-- Only the blocks that go in matter.
pub others_from_ext :
    (d : ℕ) (f g : ℕ → Block) (n j : ℕ) (acc : Block)
    → ((k : ℕ) → k < j + n → k ≢ d → f k ≡ g k)
    → others_from d f n j acc ≡ others_from d g n j acc
others_from_ext d f g zero j acc h = refl
others_from_ext d f g (suc n) j acc h = elim (ℕ_discrete d j) [
  | yes e ↦ rw (==_eq d j e) (others_from_ext d f g n (suc j) acc (λ k l. h k (omega arith)))
  | no ne ↦
      rw (==_ne d j ne, h j (omega arith) (λ e. ne (sym e)))
        (others_from_ext d f g n (suc j) (xor_block acc (g j)) (λ k l. h k (omega arith)))
]

pub sum_from_ext :
    (f g : ℕ → Block) (n j : ℕ) (acc : Block)
    → ((k : ℕ) → k < j + n → f k ≡ g k)
    → sum_from f n j acc ≡ sum_from g n j acc
sum_from_ext f g zero j acc h = refl
sum_from_ext f g (suc n) j acc h =
    rw (h j (omega arith))
      (sum_from_ext f g n (suc j) (xor_block acc (g j)) (λ k l. h k (omega arith)))

-- The parity of a stripe.
abbrev pub parity_of : ℕ → (ℕ → Block) → Block
parity_of n f = sum_from f n 0 zero_block

-- A block is the parity and the other blocks together.
pub others_from-parity :
    (d n : ℕ) (f : ℕ → Block)
    → d < n
    → xor_block (others_from d f n 0 zero_block) (parity_of n f) ≡ f d
others_from-parity d n f h =
    let others = others_from d f n 0 zero_block in
    ap (xor_block others) (others_from-sum d f n 0 zero_block (omega arith) (omega arith))
    ∙ xor_block_comm others (xor_block others (f d))
    ∙ ap (λ x. xor_block x others) (xor_block_comm others (f d))
    ∙ xor_block_cancel (f d) others

-- Taking the old block out of the parity and putting the new one in.
pub parity_of-update :
    (d n : ℕ) (f g : ℕ → Block)
    → d < n
    → ((k : ℕ) → k < n → k ≢ d → f k ≡ g k)
    → xor_block (xor_block (parity_of n f) (f d)) (g d) ≡ parity_of n g
parity_of-update d n f g h same =
    let others = others_from d f n 0 zero_block in
    ap (λ x. xor_block (xor_block x (f d)) (g d))
      (others_from-sum d f n 0 zero_block (omega arith) (omega arith))
    ∙ ap (λ x. xor_block x (g d)) (xor_block_cancel others (f d))
    ∙ ap (λ x. xor_block x (g d))
        (others_from_ext d f g n 0 zero_block (λ k l. same k (omega arith)))
    ∙ sym (others_from-sum d g n 0 zero_block (omega arith) (omega arith))
