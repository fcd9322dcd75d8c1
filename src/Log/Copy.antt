-- ===== src/Log/Copy.antt =====
-- The copies of kernel/log.c: of the blocks into the log by `write_log`, and of the header's
-- block numbers.
use raid_system.Prelude.{
  ℕ, zero, suc, ◌+◌, ◌≤◌, ◌<◌, ◌≡◌, ◌≢◌, refl, sym, ◌∙◌, subst, arith, Option, some, List, length,
  set, get_elem?-eq-get_or, get_or-set_self, get_or-set_ne, length-set,
}
use native.Mathlib.Decide.{ℕ_discrete}
use raid_system.Log.{Log, copy_blocks, read_head, write_head, write_from}
use raid_system.Log.Store.{Contents, Buffers, bread, copy_to, bwrite, update_self, update_ne}
use raid_system.Log.Install.{home, IsApart}

-- `k` rounds of `write_log` from `lo` on put the buffers of the blocks into the log.
pub record IsWritten (s : Log) (lo k : ℕ) (result : Option Log) : Type 0 where
  pub out : Buffers
  pub returns : result ≡ some (record s { buffers = out })
  pub pins : out.pins ≡ s.buffers.pins
  pub away :
      (i : ℕ)
      → ((j : ℕ) → lo ≤ j → j < lo + k → i ≢ s.start + j + 1)
      → (out.disk i ≡ s.buffers.disk i) × (out.buffer i ≡ s.buffers.buffer i)
  pub copied :
      (j : ℕ)
      → lo ≤ j
      → j < lo + k
      → (out.disk (s.start + j + 1) ≡ s.buffers.buffer (home s.lh.block j))
        × (out.buffer (s.start + j + 1) ≡ s.buffers.buffer (home s.lh.block j))

module _ (n : ℕ) where
  module _ (s : Log) (lo k : ℕ) (inside : n ≤ length s.lh.block) (fits : lo + suc k ≤ n)
      (apart : IsApart s.start s.lh.block n) where
    abbrev to : ℕ
    to = s.start + lo + 1

    abbrev from : Contents
    from = bread (home s.lh.block lo) s.buffers

    abbrev after : Buffers
    after = bwrite to (copy_to to from s.buffers)

    after-ne :
        (i : ℕ) → to ≢ i → (after.disk i ≡ s.buffers.disk i) × (after.buffer i ≡ s.buffers.buffer i)
    after-ne i ne = (update_ne s.buffers.disk to i _ ne, update_ne s.buffers.buffer to i _ ne)

    after_self : (after.disk to ≡ from) × (after.buffer to ≡ from)
    after_self = (
      update_self s.buffers.disk to _ ∙ update_self s.buffers.buffer to from,
      update_self s.buffers.buffer to from,
    )

    abbrev source :
        (j : ℕ) → j < n → after.buffer (home s.lh.block j) ≡ s.buffers.buffer (home s.lh.block j)
    source j hj =
        update_ne s.buffers.buffer to (home s.lh.block j) _
          (λ e. apart j lo hj (omega arith) (sym e))

    write_from-suc :
        IsWritten
          (record s { buffers = after })
          (suc lo)
          k
          (write_from k (suc lo) (record s { buffers = after }))
        → IsWritten s lo (suc k) (write_from (suc k) lo s)
    unfolding write_from
    write_from-suc r = record {
      out = r.out;
      returns = rw (get_elem?-eq-get_or s.lh.block lo 0 (omega arith)) r.returns;
      pins = r.pins;
      away = λ i out.
          let rest = r.away i (λ j l hj. out j (omega arith) (omega arith)) in
          let here = after-ne i (λ e. out lo (omega arith) (omega arith) (sym e)) in
          (rest.0 ∙ here.0, rest.1 ∙ here.1);
      copied = λ j l hj. elim (ℕ_discrete lo j) [
        | yes e ↦
            let rest = r.away to (λ i hi hi'. omega arith) in
            subst
              (λ x.
                (r.out.disk (s.start + x + 1) ≡ s.buffers.buffer (home s.lh.block x))
                × (r.out.buffer (s.start + x + 1) ≡ s.buffers.buffer (home s.lh.block x)))
              e (rest.0 ∙ after_self.0, rest.1 ∙ after_self.1)
        | no ne ↦
            let rest = r.copied j (omega arith) (omega arith) in
            let same = source j (omega arith) in (rest.0 ∙ same, rest.1 ∙ same)
      ];
    }

  pub write_from-IsWritten :
      (s : Log) (lo k : ℕ)
      → n ≤ length s.lh.block
      → lo + k ≤ n
      → IsApart s.start s.lh.block n
      → IsWritten s lo k (write_from k lo s)
  unfolding write_from
  write_from-IsWritten s lo zero inside fits apart = record {
    out = s.buffers;
    returns = refl;
    pins = refl;
    away = λ i out. (refl, refl);
    copied = λ j l hj. absurd (omega arith);
  }
  write_from-IsWritten s lo (suc k) inside fits apart = write_from-suc s lo k inside fits apart (
      write_from-IsWritten (record s { buffers = after s lo k inside fits apart }) (suc lo) k inside
        (omega arith) apart)

-- `k` block numbers from `lo` on are copied, and those before stay.
record IsCopied (from to : List ℕ) (lo k : ℕ) (result : Option (List ℕ)) : Type 0 where
  out : List ℕ
  returns : result ≡ some out
  same_length : length out ≡ length to
  kept : (j : ℕ) → j < lo → home out j ≡ home to j
  copied : (j : ℕ) → lo ≤ j → j < lo + k → home out j ≡ home from j

copy_blocks-IsCopied :
    (from to : List ℕ) (lo k : ℕ)
    → lo + k ≤ length from
    → lo + k ≤ length to
    → IsCopied from to lo k (copy_blocks k lo from to)
unfolding copy_blocks
copy_blocks-IsCopied from to lo zero inside room = record {
  out = to;
  returns = refl;
  same_length = refl;
  kept = λ j h. refl;
  copied = λ j l h. absurd (omega arith);
}
copy_blocks-IsCopied from to lo (suc k) inside room =
    let to' = set to lo (home from lo) in
    let same : length to' ≡ length to = length-set to lo (home from lo) in
    let r = copy_blocks-IsCopied from to' (suc lo) k (omega arith) (rw same (omega arith)) in
    record {
      out = r.out;
      returns =
          rw
            (get_elem?-eq-get_or from lo 0 (omega arith), get_elem?-eq-get_or to lo 0 (omega arith))
            r.returns;
      same_length = r.same_length ∙ same;
      kept = λ j h. r.kept j (omega arith) ∙ get_or-set_ne to lo j _ 0 (omega arith);
      copied = λ j l h. elim (ℕ_discrete lo j) [
        | yes e ↦
            subst (λ x. home r.out x ≡ home from x) e
              (r.kept lo (omega arith) ∙ get_or-set_self to lo _ 0 (omega arith))
        | no ne ↦ r.copied j (omega arith) (omega arith)
      ];
    }

-- `write_head` copies the header to the disk, and `read_head` back.
pub write_head_lem :
    (s : Log)
    → s.lh.n ≤ length s.lh.block
    → s.lh.n ≤ length s.head.block
    → (block : List ℕ) × (write_head s
        ≡ some (record s { head = record { n = s.lh.n; block = block } }))
      × (length block ≡ length s.head.block)
      × ((j : ℕ) → j < s.lh.n → home block j ≡ home s.lh.block j)
unfolding write_head
write_head_lem s inside room =
    let r = copy_blocks-IsCopied s.lh.block s.head.block 0 s.lh.n (omega arith) (omega arith) in
    (r.out, rw r.returns, r.same_length, λ j h. r.copied j (omega arith) (omega arith))

pub read_head_lem :
    (s : Log)
    → s.head.n ≤ length s.head.block
    → s.head.n ≤ length s.lh.block
    → (block : List ℕ) × (read_head s
        ≡ some (record s { lh = record { n = s.head.n; block = block } }))
      × (length block ≡ length s.lh.block)
      × ((j : ℕ) → j < s.head.n → home block j ≡ home s.head.block j)
unfolding read_head
read_head_lem s inside room =
    let r = copy_blocks-IsCopied s.head.block s.lh.block 0 s.head.n (omega arith) (omega arith) in
    (r.out, rw r.returns, r.same_length, λ j h. r.copied j (omega arith) (omega arith))
