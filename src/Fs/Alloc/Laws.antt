-- ===== src/Fs/Alloc/Laws.antt =====
-- `balloc` of kernel/fs.c on the bitmap.
use native.Mathlib.Decide.{ℕ_discrete, dec_lt}
use raid_system.Prelude.{
  ◌+◌, inl, inr, ◌⊎◌, none, Option-cases, ◌≤◌, ◌*◌, ◌-◌, ◌/◌, zero, ℕ, suc, ◌%◌, ◌<◌, ◌≡◌, ◌≢◌,
  refl, sym, ◌∙◌, ap, subst, arith, Bool, true, false, Option, some, ◌>>=◌, ◌==◌, if◌then◌else◌,
  ==_ne, update, update_self, update_ne,
}
use raid_system.Log.{Log}
use raid_system.Log.Store.{Contents}
use raid_system.Log.Room.{HasRoom}
use raid_system.Fs.{Superblock, bpb, bblock, block_of, write_logged}
use raid_system.Fs.Alloc.{
  find_free, bits_in, balloc_from, balloc, is_free, mark, bzero, zero_contents,
}
use raid_system.Fs.Alloc.Search.{
  find_free-some, find_free-none, is_free-mark, Writes, write_logged-Writes,
}

-- The bitmap has block `b` as free.
abbrev pub free_at : Superblock → Log → ℕ → Bool
free_at sb s b = is_free (block_of (bblock sb b) s) (b % bpb)

-- A block below the size of the file system that was free is in use and holds zeros; no other
-- block has changed its state, and no block but it and its block of the bitmap its contents.
pub record Allocates (sb : Superblock) (s : Log) (r b : ℕ) (result : Option (ℕ × Log))
    : Type 0 where
  pub out : Log
  pub returns : result ≡ some (b, out)
  pub room : HasRoom out r
  pub inside : b < sb.size
  pub was_free : free_at sb s b ≡ true
  pub bits : (x : ℕ) → x < sb.size → free_at sb out x ≡ (if b == x then false else free_at sb s x)
  pub zeroed : block_of b out ≡ zero_contents
  pub others : (x : ℕ) → b ≢ x → bblock sb b ≢ x → block_of x out ≡ block_of x s

module _ (sb : Superblock) (s : Log) (r : ℕ) (has : HasRoom s (suc (suc r)))
    (reserved : (x : ℕ) → x < sb.size → free_at sb s (bblock sb x) ≡ false) where
  -- The two writes for block `b`
  take : ℕ → Option (ℕ × Log)
  take b = do
    s₁ ← write_logged (bblock sb b) (mark (block_of (bblock sb b) s) (b % bpb)) s
    s₂ ← bzero b s₁
    some (b, s₂)

  module _ (b : ℕ) (inside : b < sb.size) (free : free_at sb s b ≡ true) where
    marked : Contents
    marked = mark (block_of (bblock sb b) s) (b % bpb)

    first : Writes s (bblock sb b) marked (suc r) (write_logged (bblock sb b) marked s)
    first = write_logged-Writes s (bblock sb b) marked (suc r) has

    second : Writes first.out b zero_contents r (write_logged b zero_contents first.out)
    second = write_logged-Writes first.out b zero_contents r first.room

    not_bitmap : (x : ℕ) → x < sb.size → b ≢ bblock sb x
    not_bitmap x lt e =
        let no_way : free_at sb s b ≡ false =
          subst (λ y. free_at sb s y ≡ false) (sym e) (reserved x lt) in
        absurd (cc)

    block-out :
        (x : ℕ) → b ≢ x → block_of x second.out ≡ update s.buffers.buffer (bblock sb b) marked x
    block-out x ne =
        ap (λ f. f x) second.buffers
        ∙ update_ne first.out.buffers.buffer b x zero_contents ne
        ∙ ap (λ f. f x) first.buffers

    bits-out :
        (x : ℕ) → x < sb.size → free_at sb second.out x ≡ (if b == x then false else free_at sb s x)
    unfolding marked
    bits-out x lt = elim (ℕ_discrete (bblock sb b) (bblock sb x)) [
      | no far ↦
          let ne : b ≢ x = λ e. far (ap (bblock sb) e) in
          rw
            (
              block-out (bblock sb x) (not_bitmap x lt),
              update_ne s.buffers.buffer (bblock sb b) (bblock sb x) marked far,
              ==_ne b x ne,
            )
            refl
      | yes near ↦
          let there : block_of (bblock sb x) second.out ≡ marked =
            block-out (bblock sb x) (not_bitmap x lt)
            ∙ subst (λ y. update s.buffers.buffer (bblock sb b) marked y ≡ marked) near
                (update_self s.buffers.buffer (bblock sb b) marked) in
          let same : (b % bpb == x % bpb) ≡ (b == x) = ground arith in
          let old : is_free (block_of (bblock sb b) s) (x % bpb) ≡ free_at sb s x =
            ap (λ y. is_free (block_of y s) (x % bpb)) near in
          rw there
            (is_free-mark (block_of (bblock sb b) s) (b % bpb) (x % bpb) free ∙ rw (same, old) refl)
    ]

    take-Allocates : Allocates sb s r b (take b)
    unfolding take bzero marked
    take-Allocates = record {
      out = second.out;
      returns = rw (first.returns, second.returns) refl;
      room = second.room;
      inside = inside;
      was_free = free;
      bits = bits-out;
      zeroed = ap (λ f. f b) second.buffers ∙ update_self first.out.buffers.buffer b zero_contents;
      others = λ x ne ne'. block-out x ne ∙ update_ne s.buffers.buffer (bblock sb b) x marked ne';
    }

  bits_in-bound : (b bi : ℕ) → bi < bits_in sb b → (bi < 8192) × (b + bi < sb.size)
  bits_in-bound b bi h = ground arith

  bits_in-all : (b x : ℕ) → b ≤ x → x < sb.size → x < b + 8192 → x - b < bits_in sb b
  bits_in-all b x lo inside hi = ground arith

  balloc_from-take :
      (n b bi : ℕ)
      → b % 8192 ≡ 0
      → bi < 8192
      → find_free (block_of (bblock sb b) s) (bits_in sb b) 0 ≡ some bi
      → balloc_from sb (suc n) b s ≡ take (b + bi)
  unfolding take balloc_from
  balloc_from-take n b bi even small e =
      let block : bblock sb (b + bi) ≡ bblock sb b = omega arith in
      let bit : (b + bi) % 8192 ≡ bi = omega arith in rw (e, balloc_from) (rw (block, bit) refl)

  balloc_from-next :
      (n b : ℕ)
      → find_free (block_of (bblock sb b) s) (bits_in sb b) 0 ≡ none
      → balloc_from sb (suc n) b s ≡ balloc_from sb n (b + bpb) s
  unfolding balloc_from
  balloc_from-next n b e = rw (e, balloc_from) refl

  -- Either a block is allocated, or all are in use and 0 is returned.
  abbrev pub Ends : ℕ → Option (ℕ × Log) → Type 0
  Ends b result =
      ((a : ℕ) × Allocates sb s r a result)
      ⊎ ((result ≡ some (0, s)) × ((x : ℕ) → b ≤ x → x < sb.size → free_at sb s x ≡ false))

  balloc_from-Ends :
      (n b : ℕ) → b % 8192 ≡ 0 → sb.size ≤ b + n * 8192 → Ends b (balloc_from sb n b s)
  unfolding balloc_from
  balloc_from-Ends zero b even enough = inr (refl, λ x lo hi. absurd (omega arith))
  balloc_from-Ends (suc n) b even enough =
      let c = block_of (bblock sb b) s in
      elim (Option-cases (find_free c (bits_in sb b) 0)) [
        | inr (bi, e) ↦
            let hit = find_free-some c (bits_in sb b) 0 bi e in
            let bound = bits_in-bound b bi (omega (arith, hit.1)) in
            let block : bblock sb (b + bi) ≡ bblock sb b = omega (arith, bound.0) in
            let bit : (b + bi) % 8192 ≡ bi = omega (arith, bound.0) in
            let free : free_at sb s (b + bi) ≡ true = rw (block, bit) hit.2 in
            inl (
              b + bi,
              subst (Allocates sb s r (b + bi)) (sym (balloc_from-take n b bi even bound.0 e))
                  (take-Allocates (b + bi) bound.1 free),
            )
        | inl e ↦
            let used : (x : ℕ) → b ≤ x → x < sb.size → x < b + 8192 → free_at sb s x ≡ false =
              λ x lo hi near.
                let block : bblock sb x ≡ bblock sb b = omega arith in
                let bit : x % 8192 ≡ x - b = omega arith in
                rw (block, bit)
                  (find_free-none c (bits_in sb b) 0 (x - b) e (omega arith)
                    (omega (arith, bits_in-all b x lo hi near))) in
            elim (balloc_from-Ends n (b + 8192) (omega arith) (omega arith)) [
              | inl (a, found) ↦
                  inl (a, subst (Allocates sb s r a) (sym (balloc_from-next n b e)) found)
              | inr (none_left, rest) ↦ inr (
                balloc_from-next n b e ∙ none_left,
                λ x lo hi. elim (dec_lt x (b + 8192)) [
                  | yes near ↦ used x lo hi near
                  | no far ↦ rest x (omega arith) hi
                ],
              )
            ]
      ]

  -- `balloc` with room in the log succeeds. It gives a block that was free, below the size of the
  -- file system, marks it and no other, and fills it with zeros; or every block is in use, and it
  -- gives 0 and changes nothing. The blocks of the bitmap are marked as in use themselves.
  pub balloc-Ends : Ends 0 (balloc sb s)
  unfolding balloc
  balloc-Ends = balloc_from-Ends ((sb.size + 8191) / 8192) 0 refl (omega arith)
