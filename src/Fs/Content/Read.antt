-- ===== src/Fs/Content/Read.antt =====
-- `readi` of kernel/fs.c on a file whose blocks are allocated.
use raid_system.Prelude.{
  none, subst, sym, true, false, ◌^◌, ◌==◌, negsuc, ℕ, zero, suc, ◌+◌, ◌-◌, ◌*◌, ◌/◌, ◌%◌, ◌≤◌, ◌<◌,
  ◌≡◌, refl, ◌∙◌, ap, arith, true, Option, some, ltb, if◌then◌else◌, lt→ltb, le→ltb, ==_ne, inl,
  inr, ◌⊎◌, pos,
}
use native.Mathlib.Decide.{dec_lt}
use raid_system.Log.{Log}
use raid_system.Memory.{Bytes}
use raid_system.Fs.{Superblock, bsize, block_of}
use raid_system.Fs.Inode.{Inode}
use raid_system.Fs.Content.{min, copy_between, readi, Progress, read_from}
use raid_system.Fs.Content.Mapped.{addr_of, IsMapped, addr_of_ne, bmap_mapped}
use raid_system.Fs.Content.Chunk.{copy_between-Copies, min-le, min-pos}

-- Byte `i` of the file
abbrev pub file_byte : Inode → Log → ℕ → ℕ
file_byte ip s i = block_of (addr_of ip s (i / bsize)) s (i % bsize)

-- All `n` bytes from `off` on go to `dst`, and nothing else changes.
pub record Reads (ip : Inode) (s : Log) (off dst n : ℕ) (memory : Bytes) (total : ℕ)
    (result : Option Progress) : Type 0 where
  pub out : Bytes
  pub returns :
      result
      ≡ some (record { returned = pos total; off = off + n; inode = ip; log = s; memory = out })
  pub moved : (k : ℕ) → k < n → out (dst + k) ≡ file_byte ip s (off + k)
  pub others : (a : ℕ) → (a < dst) ⊎ (dst + n ≤ a) → out a ≡ memory a

module _ (sb : Superblock) (fault : ℕ → ℕ → Option ℕ) (ip : Inode) (s : Log) (blocks total : ℕ)
    (mapped : IsMapped ip s blocks) (reaches : (a m : ℕ) → fault a m ≡ none) where
  -- What a round copies
  abbrev chunk : ℕ → ℕ → ℕ
  chunk tot off = min (total - tot) (bsize - off % bsize)

  abbrev copied : ℕ → ℕ → ℕ → Bytes → Bytes
  copied tot off dst memory =
      copy_between dst (off % bsize) (chunk tot off) (block_of (addr_of ip s (off / bsize)) s)
        memory

  read_from-suc :
      (fuel tot off dst : ℕ) (memory : Bytes)
      → tot < total
      → off / bsize < blocks
      → read_from sb fault total (suc fuel) tot off dst ip memory s
        ≡ read_from sb fault total fuel
            (tot + chunk tot off)
            (off + chunk tot off)
            (dst + chunk tot off)
            ip
            (copied tot off dst memory)
            s
  unfolding read_from
  read_from-suc fuel tot off dst memory more there =
      let m = chunk tot off in
      let addr = addr_of ip s (off / bsize) in
      let step : read_from sb fault total (suc fuel) tot off dst ip memory s ≡ (elim (addr == 0) [
        | true ↦
            some (record { returned = pos tot; off = off; inode = ip; log = s; memory = memory })
        | false ↦ elim (fault dst m) [
          | some k ↦ some (record {
            returned = negsuc 0;
            off = off;
            inode = ip;
            log = s;
            memory =
                copy_between dst (off % bsize) (min k m) (block_of (addr_of ip s (off / bsize)) s)
                  memory;
          })
          | none ↦
              read_from sb fault total fuel (tot + m) (off + m) (dst + m) ip
                (copied tot off dst memory) s
        ]
      ]) =
        rw (lt→ltb tot total more, bmap_mapped sb ip s blocks mapped (off / bsize) there, read_from)
          refl in
      step
      ∙ rw (==_ne addr 0 (addr_of_ne sb ip s blocks mapped (off / bsize) there), reaches dst m) refl

  -- A byte of the chunk is a byte of the block.
  same_block :
      (off k m : ℕ)
      → k < m
      → m ≤ bsize - off % bsize
      → block_of (addr_of ip s (off / bsize)) s (off % bsize + k) ≡ file_byte ip s (off + k)
  same_block off k m h fits =
      let e : (off + k) / 1024 ≡ off / 1024 = omega arith in
      let e' : (off + k) % 1024 ≡ off % 1024 + k = omega arith in rw (e, e') refl

  read_from-Reads :
      (fuel tot off dst : ℕ) (memory : Bytes)
      → tot ≤ total
      → total - tot < fuel
      → off + (total - tot) ≤ blocks * 1024
      → Reads ip s off dst
          (total - tot)
          memory
          total
          (read_from sb fault total fuel tot off dst ip memory s)
  unfolding read_from
  read_from-Reads zero tot off dst memory le enough fits = absurd (omega arith)
  read_from-Reads (suc fuel) tot off dst memory le enough fits = elim (dec_lt tot total) [
    | no done ↦
        let e : total - tot ≡ 0 = omega arith in
        let e' : tot ≡ total = omega arith in
        let e'' : off + 0 ≡ off = omega arith in
        rw e (record {
          out = memory;
          returns = rw (le→ltb tot total (omega arith), e'', read_from) (rw e' refl);
          moved = λ k h. absurd (omega arith);
          others = λ a h. refl;
        })
    | yes more ↦
        let m = chunk tot off in
        let small = min-le (total - tot) (1024 - off % 1024) in
        let big = min-pos (total - tot) (1024 - off % 1024) (omega arith) (omega arith) in
        let there : off / 1024 < blocks = omega arith in
        let left : total - (tot + m) ≡ total - tot - m = omega (arith, small.0) in
        let next =
          read_from-Reads fuel (tot + m) (off + m) (dst + m) (copied tot off dst memory)
            (omega (arith, small.0)) (omega (arith, small.0, big)) (omega (arith, small.0)) in
        let here =
          copy_between-Copies m dst (off % 1024) (block_of (addr_of ip s (off / 1024)) s) memory in
        let end : off + m + (total - (tot + m)) ≡ off + (total - tot) = omega (arith, small.0) in
        record {
          out = next.out;
          returns =
              read_from-suc fuel tot off dst memory more there
              ∙ next.returns
              ∙ ap
                  (λ o. some (record {
                    returned = pos total;
                    off = o;
                    inode = ip;
                    log = s;
                    memory = next.out;
                  }))
                  end;
          moved = λ k h. elim (dec_lt k m) [
            | yes inside ↦
                next.others (dst + k) (inl (omega arith))
                ∙ here.moved k inside
                ∙ same_block off k m inside small.1
            | no behind ↦
                let e : dst + k ≡ dst + m + (k - m) = omega arith in
                let e' : off + k ≡ off + m + (k - m) = omega arith in
                rw (e, e') (next.moved (k - m) (omega (arith, small.0)))
          ];
          others = λ a h.
              next.others a
                (elim h [ inl l ↦ inl (omega arith) | inr l ↦ inr (omega (arith, small.0)) ])
              ∙ here.others a (elim h [ inl l ↦ inl l | inr l ↦ inr (omega (arith, small.0)) ]);
        }
  ]

  -- How many bytes there are to read
  abbrev pub readable : ℕ → ℕ → ℕ
  readable off n = if ltb ip.size (off + n) then ip.size - off else n

  readable-le : (off n : ℕ) → off ≤ ip.size → off + readable off n ≤ ip.size
  readable-le off n inside = ground arith

  -- `readi` of a file whose blocks are allocated, at least up to its end, copies the bytes of the
  -- file from `off` on to `dst`, `n` of them or those up to the end of the file, and returns how
  -- many; it changes nothing else. No copy to the caller fails, the offset is not behind the end,
  -- and `off + n` fits in 32 bits.
  pub readi-Reads :
      (dst off n : ℕ) (memory : Bytes)
      → total ≡ readable off n
      → off ≤ ip.size
      → off + n < 2 ^ 32
      → ip.size ≤ blocks * 1024
      → Reads ip s off dst total memory total (readi sb fault ip dst off n memory s)
  unfolding readi
  readi-Reads dst off n memory all inside small end =
      let no_wrap : ltb ((off + n) % 2 ^ 32) off ≡ false = ground arith in
      let bound : off + total ≤ ip.size = omega (arith, all, readable-le off n inside) in
      let all_left : total - 0 ≡ total = omega arith in
      let r =
        read_from-Reads (suc total) 0 off dst memory (omega arith) (omega arith) (omega arith) in
      rw (le→ltb ip.size off inside, no_wrap, sym all)
        (subst
          (λ x.
            Reads ip s off dst x memory total
              (read_from sb fault total (suc total) 0 off dst ip memory s))
          all_left r)
