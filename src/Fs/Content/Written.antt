-- ===== src/Fs/Content/Written.antt =====
-- `writei` of kernel/fs.c puts the caller's bytes into the file.
use native.Mathlib.Decide.{dec_lt}
use raid_system.Prelude.{
  none, Option, ℕ, zero, suc, ◌+◌, ◌-◌, ◌*◌, ◌/◌, ◌%◌, ◌≤◌, ◌<◌, ◌≡◌, refl, ◌∙◌, ap, arith, some,
  lt→ltb, le→ltb, inl, inr, ◌⊎◌, pos,
}
use raid_system.Log.{Log}
use raid_system.Log.Room.{HasRoom}
use raid_system.Memory.{Bytes}
use raid_system.Fs.{Superblock}
use raid_system.Fs.Inode.{Inode}
use raid_system.Fs.Content.{write_from}
use raid_system.Fs.Content.Chunk.{min-le, min-pos}
use raid_system.Fs.Content.Patch.{IsSeparate}
use raid_system.Fs.Content.Write.{
  HasRoom_less, Stores, chunk, logged, write_from-suc, round-written, round-kept, round-root,
  round-separate,
}

module _ (sb : Superblock) (fault : ℕ → ℕ → Option ℕ) (ip : Inode) (memory : Bytes)
    (blocks total r : ℕ) (reaches : (a m : ℕ) → fault a m ≡ none) where
  -- Behind a round the bytes are at their end, or the next block begins.
  reach_on :
      (tot off k : ℕ)
      → tot < total
      → off + (total - tot) ≤ (off / 1024 + k) * 1024
      → (total - (tot + chunk sb fault ip memory blocks total r reaches tot off) ≡ 0)
        ⊎ (off
              + chunk sb fault ip memory blocks total r reaches tot off
              + (total - (tot + chunk sb fault ip memory blocks total r reaches tot off))
            ≤ ((off + chunk sb fault ip memory blocks total r reaches tot off) / 1024 + (k - 1))
              * 1024)
  reach_on tot off k more far = elim (dec_lt (total - tot) (1024 - off % 1024)) [
    | yes l ↦
        let e : chunk sb fault ip memory blocks total r reaches tot off ≡ total - tot =
          rw (lt→ltb (total - tot) (1024 - off % 1024) l) refl in
        inl (rw e (omega arith))
    | no l ↦
        let e : chunk sb fault ip memory blocks total r reaches tot off ≡ 1024 - off % 1024 =
          rw (le→ltb (total - tot) (1024 - off % 1024) (omega arith)) refl in
        inr (rw e (omega arith))
  ]

  -- `k` blocks of the file are behind the one that `off` lies in, that one included; the log has
  -- room for them.
  pub write_from-Stores :
      (fuel : ℕ) (s : Log) (tot off src k : ℕ)
      → IsSeparate ip s blocks
      → tot ≤ total
      → total - tot < fuel
      → off + (total - tot) ≤ blocks * 1024
      → HasRoom s (r + k)
      → (total - tot ≡ 0) ⊎ (off + (total - tot) ≤ (off / 1024 + k) * 1024)
      → Stores ip s blocks r off src
          (total - tot)
          memory
          total
          (write_from sb fault total fuel tot off src ip memory s)
  unfolding write_from
  write_from-Stores zero s tot off src k ok le enough fits has reach = absurd (omega arith)
  write_from-Stores (suc fuel) s tot off src k ok le enough fits has reach =
      elim (dec_lt tot total) [
        | no done ↦
            let e : total - tot ≡ 0 = omega arith in
            let e' : tot ≡ total = omega arith in
            let e'' : off + 0 ≡ off = omega arith in
            rw e (record {
              out = s;
              returns = rw (le→ltb tot total (omega arith), e'', write_from) (rw e' refl);
              room = HasRoom_less s (r + k) r (omega arith) has;
              root = refl;
              written = λ i h. absurd (omega arith);
              kept = λ i h out. refl;
            })
        | yes more ↦
            let m = chunk sb fault ip memory blocks total r reaches tot off in
            let small = min-le (total - tot) (1024 - off % 1024) in
            let big = min-pos (total - tot) (1024 - off % 1024) (omega arith) (omega arith) in
            let there : off / 1024 < blocks = omega arith in
            let far : off + (total - tot) ≤ (off / 1024 + k) * 1024 = elim reach [
              | inl z ↦ absurd (omega arith)
              | inr l ↦ l
            ] in
            let has' : HasRoom s (suc (r + (k - 1))) =
              HasRoom_less s (r + k) (suc (r + (k - 1))) (omega arith) has in
            let step =
              logged sb fault ip memory blocks total r reaches s ok tot off src (r + (k - 1)) more
                there has' in
            let next =
              write_from-Stores fuel step.out (tot + m) (off + m) (src + m) (k - 1)
                (round-separate sb fault ip memory blocks total r reaches s ok tot off src
                  (r + (k - 1)) more there has')
                (omega (arith, small.0)) (omega (arith, small.0, big)) (omega (arith, small.0))
                step.room (reach_on tot off k more far) in
            let end : off + m + (total - (tot + m)) ≡ off + (total - tot) =
              omega (arith, small.0) in
            record {
              out = next.out;
              returns =
                  write_from-suc sb fault ip memory blocks total r reaches s ok tot off src
                    (r + (k - 1)) more there has' fuel
                  ∙ next.returns
                  ∙ ap
                      (λ o. some (record {
                        returned = pos total;
                        off = o;
                        inode = ip;
                        log = next.out;
                        memory = memory;
                      }))
                      end;
              room = next.room;
              root =
                  next.root
                  ∙ round-root sb fault ip memory blocks total r reaches s ok tot off src
                      (r + (k - 1)) more there has';
              written = λ i h. elim (dec_lt i m) [
                | yes inside ↦
                    next.kept (off + i) (omega arith) (inl (omega arith))
                    ∙ round-written sb fault ip memory blocks total r reaches s ok tot off src
                        (r + (k - 1)) more there has' i inside
                | no behind ↦
                    let e : off + i ≡ off + m + (i - m) = omega arith in
                    let e' : src + i ≡ src + m + (i - m) = omega arith in
                    rw (e, e') (next.written (i - m) (omega (arith, small.0)))
              ];
              kept = λ i h out.
                  next.kept i h
                    (elim out [ inl l ↦ inl (omega arith) | inr l ↦ inr (omega (arith, small.0)) ])
                  ∙ round-kept sb fault ip memory blocks total r reaches s ok tot off src
                      (r + (k - 1)) more there has' i h
                      (elim out [ inl l ↦ inl l | inr l ↦ inr (omega (arith, small.0)) ]);
            }
      ]
