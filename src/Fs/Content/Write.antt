-- ===== src/Fs/Content/Write.antt =====
-- The loop of `writei` of kernel/fs.c on a file whose blocks are allocated.
use native.Mathlib.Decide.{ℕ_discrete}
use raid_system.Prelude.{
  none, ℕ, suc, ◌+◌, ◌-◌, ◌*◌, ◌/◌, ◌%◌, ◌≤◌, ◌<◌, ◌≡◌, refl, sym, ◌∙◌, ap, arith, true, false,
  Option, some, ◌>>=◌, ◌==◌, lt→ltb, ==_ne, inl, inr, ◌⊎◌, pos,
}
use raid_system.Log.{Log}
use raid_system.Log.Store.{Contents}
use raid_system.Log.Room.{HasRoom}
use raid_system.Memory.{Bytes}
use raid_system.Fs.{Superblock, bsize, block_of, write_logged}
use raid_system.Fs.Inode.{Inode}
use raid_system.Fs.Alloc.Search.{Writes, write_logged-Writes}
use raid_system.Fs.Content.{min, copy_between, Progress, partly_written, write_from}
use raid_system.Fs.Content.Mapped.{addr_of, indirect, addr_of_ne, bmap_mapped}
use raid_system.Fs.Content.Chunk.{copy_between-Copies, min-le}
use raid_system.Fs.Content.Read.{file_byte}
use raid_system.Fs.Content.Patch.{
  IsSeparate, IsSeparate-same, indirect-same, byte-written, byte-kept,
}

pub HasRoom_less : (s : Log) (q r : ℕ) → r ≤ q → HasRoom s q → HasRoom s r
HasRoom_less s q r h has = record {
  size_block = has.size_block;
  space = omega (arith, has.space);
  log_space = omega (arith, has.log_space);
  running = has.running;
}

-- The bytes of the file from `off` on are those of the memory from `src` on, `n` of them, and the
-- others as they were.
pub record Stores (ip : Inode) (s : Log) (blocks r off src n : ℕ) (memory : Bytes) (total : ℕ)
    (result : Option Progress) : Type 0 where
  pub out : Log
  pub returns :
      result
      ≡ some
          (record { returned = pos total; off = off + n; inode = ip; log = out; memory = memory })
  pub room : HasRoom out r
  pub root : block_of (indirect ip) out ≡ block_of (indirect ip) s
  pub written : (k : ℕ) → k < n → file_byte ip out (off + k) ≡ memory (src + k)
  pub kept :
      (i : ℕ)
      → i < blocks * 1024
      → (i < off) ⊎ (off + n ≤ i)
      → file_byte ip out i ≡ file_byte ip s i

module _ (sb : Superblock) (fault : ℕ → ℕ → Option ℕ) (ip : Inode) (memory : Bytes)
    (blocks total r : ℕ) (reaches : (a m : ℕ) → fault a m ≡ none) where
  abbrev pub chunk : ℕ → ℕ → ℕ
  chunk tot off = min (total - tot) (bsize - off % bsize)

  -- The block that a round writes to, as it is behind it
  abbrev pub patched : Log → ℕ → ℕ → ℕ → Contents
  patched s tot off src =
      copy_between (off % bsize) src (chunk tot off) memory
        (block_of (addr_of ip s (off / bsize)) s)

  module _ (s : Log) (ok : IsSeparate ip s blocks) (tot off src q : ℕ) (more : tot < total)
      (there : off / 1024 < blocks) (has : HasRoom s (suc q)) where
    abbrev pub addr : ℕ
    addr = addr_of ip s (off / bsize)

    pub logged :
        Writes s addr (patched s tot off src) q (write_logged addr (patched s tot off src) s)
    logged = write_logged-Writes s addr (patched s tot off src) q has

    pub write_from-suc :
        (fuel : ℕ)
        → write_from sb fault total (suc fuel) tot off src ip memory s
          ≡ write_from sb fault total fuel
              (tot + chunk tot off)
              (off + chunk tot off)
              (src + chunk tot off)
              ip
              memory
              logged.out
    unfolding write_from
    write_from-suc fuel =
        let m = chunk tot off in
        let step : write_from sb fault total (suc fuel) tot off src ip memory s
            ≡ (elim (addr == 0) [
              | true ↦
                  some
                    (record { returned = pos tot; off = off; inode = ip; log = s; memory = memory })
              | false ↦ elim (fault src m) [
                | some k ↦ some (record {
                  returned = pos tot;
                  off = off;
                  inode = ip;
                  log = partly_written addr (off % bsize) src (min k m) memory s;
                  memory = memory;
                })
                | none ↦ (do
                  s'' ← write_logged addr (patched s tot off src) s
                  write_from sb fault total fuel (tot + m) (off + m) (src + m) ip memory s'')
              ]
            ]) =
          rw
            (
              lt→ltb tot total more,
              bmap_mapped sb ip s blocks ok.mapped (off / bsize) there,
              write_from,
            )
            refl in
        step
        ∙ rw (==_ne addr 0 (addr_of_ne sb ip s blocks ok.mapped (off / bsize) there), reaches src m)
            (rw logged.returns refl)

    -- The bytes of a round
    pub round-written :
        (k : ℕ) → k < chunk tot off → file_byte ip logged.out (off + k) ≡ memory (src + k)
    round-written k h =
        let small = min-le (total - tot) (1024 - off % 1024) in
        let e : (off + k) / 1024 ≡ off / 1024 = omega (arith, small.1) in
        let e' : (off + k) % 1024 ≡ off % 1024 + k = omega (arith, small.1) in
        byte-written ip s logged.out blocks (off / 1024) (patched s tot off src) ok there
          logged.buffers (off + k) e
        ∙ rw e' (
            let c =
              copy_between-Copies (chunk tot off) (off % 1024) src memory
                (block_of (addr_of ip s (off / 1024)) s) in
            c.moved k h)

    -- The bytes of the file but for those of the round
    pub round-kept :
        (i : ℕ)
        → i < blocks * 1024
        → (i < off) ⊎ (off + chunk tot off ≤ i)
        → file_byte ip logged.out i ≡ file_byte ip s i
    round-kept i h out = elim (ℕ_discrete (i / 1024) (off / 1024)) [
      | no ne ↦
          byte-kept ip s logged.out blocks (off / 1024) (patched s tot off src) ok there
            logged.buffers i (omega arith) ne
      | yes e ↦
          byte-written ip s logged.out blocks (off / 1024) (patched s tot off src) ok there
            logged.buffers i e
          ∙ (let c =
                copy_between-Copies (chunk tot off) (off % 1024) src memory
                  (block_of (addr_of ip s (off / 1024)) s) in
              c.others (i % 1024)
                (elim out [ inl l ↦ inl (omega arith) | inr l ↦ inr (omega arith) ]))
          ∙ ap (λ b. block_of (addr_of ip s b) s (i % 1024)) (sym e)
    ]

    pub round-root : block_of (indirect ip) logged.out ≡ block_of (indirect ip) s
    round-root =
        indirect-same ip s logged.out blocks (off / 1024) (patched s tot off src) ok there
          logged.buffers

    pub round-separate : IsSeparate ip logged.out blocks
    round-separate = IsSeparate-same ip s logged.out blocks ok round-root
