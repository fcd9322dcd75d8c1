-- ===== src/Bcache/Read.antt =====
-- `bread` of kernel/bio.c.
use native.Mathlib.Decide.{ℕ_discrete}
use raid_system.Prelude.{
  ℕ, suc, ◌<◌, ◌≡◌, ◌≢◌, refl, sym, ◌∙◌, ap, subst, arith, true, false, Option, none, some, update,
  update_self, update_ne, inl, inr, Bool-cases,
}
use raid_system.Bcache.{Buf, Bcache, with_buf, find_cached, find_unused, bget, filled, bread}
use raid_system.Bcache.Find.{IsFor, find_cached-cases, find_unused-cases}
use raid_system.Bcache.Coherent.{
  IsIn, cell, contents, IsCoherent, Replaces, contents-cached, contents-absent, Replaces-IsCoherent,
  contents-new, contents-kept,
}

-- The call returns a buffer with the contents of the block, which is used then; no block of the
-- device has other contents than before, and no other buffer and no block of the disk changes.
pub record Reads (dev blockno : ℕ) (s : Bcache) (result : Option (ℕ × Bcache)) : Type 0 where
  pub index : ℕ
  pub out : Bcache
  pub returns : result ≡ some (index, out)
  pub there : IsIn index out
  pub key : IsFor dev blockno (out.buf index)
  pub valid : (out.buf index).valid ≡ true
  pub read : (out.buf index).bytes ≡ contents dev blockno s
  pub used : 0 < (out.buf index).refcnt
  pub coherent : IsCoherent dev out
  pub same : (c : ℕ) → contents dev c out ≡ contents dev c s
  pub others : (j : ℕ) → j ≢ index → out.buf j ≡ s.buf j
  pub disk : out.disk ≡ s.disk

-- The buffer `b` when it has been read from the disk, if it had not
abbrev pub loaded : Bcache → Buf → Buf
loaded s b = record b { valid = true; bytes = cell s b.blockno b }

filled-loaded : (s : Bcache) (b : Buf) → filled s b ≡ loaded s b
filled-loaded s b = elim (Bool-cases b.valid) [ inl e ↦ rw e refl | inr e ↦ rw e refl ]

module _ (dev blockno : ℕ) (s : Bcache) (ok : IsCoherent dev s) where
  module _ (i : ℕ) (b : Buf) (got : bget dev blockno s ≡ some (i, with_buf s i b))
      (there : IsIn i s) (key : IsFor dev blockno b) (used : 0 < b.refcnt)
      (fresh : (j : ℕ) → IsIn j s → j ≢ i → ¬ IsFor dev blockno (s.buf j))
      (right : cell s blockno b ≡ contents dev blockno s)
      (clean : (c : ℕ) → c ≢ blockno → IsFor dev c (s.buf i) → cell s c (s.buf i) ≡ s.disk c) where
    abbrev read_in : Bcache
    read_in = with_buf (with_buf s i b) i (loaded s b)

    bread-got : bread dev blockno s ≡ some (i, read_in)
    unfolding bread
    bread-got = rw got (
        ap (λ x. some (i, with_buf (with_buf s i b) i x))
          (ap (filled s) (update_self s.buf i b) ∙ filled-loaded s b))

    step : Replaces s read_in i (loaded s b)
    step = record {
      there = there;
      here = update_self (update s.buf i b) i (loaded s b);
      others = λ j ne.
          update_ne (update s.buf i b) i j (loaded s b) (λ e. ne (sym e))
          ∙ update_ne s.buf i j b (λ e. ne (sym e));
      order = λ j. refl;
      disk = λ c ne. refl;
    }

    fresh' : (j : ℕ) → IsIn j s → j ≢ i → ¬ IsFor dev b.blockno (s.buf j)
    fresh' j h ne key' = fresh j h ne (key'.0, key'.1 ∙ key.1)

    pub got-Reads : Reads dev blockno s (bread dev blockno s)
    got-Reads =
        let after =
          Replaces-IsCoherent dev s read_in i (loaded s b) ok step key.0 fresh'
            (λ v unused. absurd (omega (arith, used, unused))) in
        record {
          index = i;
          out = read_in;
          returns = bread-got;
          there = there;
          key = rw step.here key;
          valid = ap (λ (x : Buf). x.valid) step.here;
          read = ap (λ (x : Buf). x.bytes) step.here ∙ ap (λ c. cell s c b) key.1 ∙ right;
          used = rw step.here used;
          coherent = after;
          same = λ c. elim (ℕ_discrete c blockno) [
            | yes e ↦ rw e (
                subst (λ x. contents dev x read_in ≡ cell s x b) key.1
                  (contents-new dev s read_in i (loaded s b) ok step key.0 fresh' after)
                ∙ right)
            | no ne ↦
                contents-kept dev s read_in i (loaded s b) ok step key.0 fresh' after c
                  (λ e. ne (e ∙ key.1)) (clean c ne)
          ];
          others = step.others;
          disk = refl;
        }

  bget-cached :
      (i : ℕ)
      → find_cached dev blockno s.buf s.order ≡ some i
      → bget dev blockno s
        ≡ some (i, with_buf s i (record (s.buf i) { refcnt = suc (s.buf i).refcnt }))
  unfolding bget
  bget-cached i found = rw (found, bget) refl

  bget-recycled :
      (i : ℕ)
      → find_cached dev blockno s.buf s.order ≡ none
      → find_unused s.buf s.order ≡ some i
      → bget dev blockno s
        ≡ some (
          i,
          with_buf s i
              (record (s.buf i) { dev = dev; blockno = blockno; valid = false; refcnt = 1 }),
        )
  unfolding bget
  bget-recycled i missing found = rw (missing, bget) (rw found refl)

  -- `bread` of a block of the device, where the cache is coherent and has a buffer that is not
  -- used: it returns a buffer with the contents of the block, whether the block is cached or not,
  -- which is used then; recycling a buffer for it changes the contents of no block; no other
  -- buffer and no block of the disk changes; and the cache is coherent again.
  pub bread-Reads :
      (free : ℕ) → IsIn free s → (s.buf free).refcnt ≡ 0 → Reads dev blockno s (bread dev blockno s)
  bread-Reads free in_list unused = elim (find_cached-cases dev blockno s.buf s.order) [
    | inl (i, found, there, key) ↦
        got-Reads i (record (s.buf i) { refcnt = suc (s.buf i).refcnt }) (bget-cached i found) there
          key (omega arith) (λ j h ne key'. ne (ok.unique j i blockno h there key' key))
          (sym (contents-cached dev s ok i blockno there key))
          (λ c ne key'. absurd (ne (sym key'.1 ∙ key.1)))
    | inr (missing, other) ↦ elim (find_unused-cases s.buf s.order) [
      | inr (none_left, all_used) ↦ absurd (all_used free in_list unused)
      | inl (i, found, there, idle) ↦
          got-Reads i (record (s.buf i) { dev = dev; blockno = blockno; valid = false; refcnt = 1 })
            (bget-recycled i missing found) there (refl, refl) (omega arith)
            (λ j h ne key'. other j h key') (sym (contents-absent dev blockno s other))
            (λ c ne key'. elim (Bool-cases (s.buf i).valid) [
              | inl e ↦ rw e (ok.clean i there e idle ∙ ap s.disk key'.1)
              | inr e ↦ rw e refl
            ])
    ]
  ]
