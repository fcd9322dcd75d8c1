-- ===== src/Fs/Content.antt =====
-- The bytes of a file in kernel/fs.c: `readi` and `writei`.
pub mod Mapped
pub mod Chunk
pub mod Read
pub mod Patch
pub mod Write
pub mod Written
pub mod Roundtrip
use raid_system.Prelude.{
  ℕ, zero, suc, ◌+◌, ◌-◌, ◌*◌, ◌/◌, ◌%◌, ◌^◌, Bool, true, false, Option, none, some, ◌>>=◌, ◌||◌,
  ltb, ◌==◌, if◌then◌else◌, update, ℤ, pos, negsuc,
}
use raid_system.Log.{Log}
use raid_system.Log.Store.{Contents, copy_to}
use raid_system.Memory.{Bytes}
use raid_system.Fs.{Superblock, bsize, maxfile, block_of, write_logged}
use raid_system.Fs.Inode.{Inode, bmap, iupdate}

abbrev pub min : ℕ → ℕ → ℕ
min a b = if ltb a b then a else b

-- `n` bytes from `s` on in one block or memory go to `d` and on in another.
unfoldable pub copy_between : ℕ → ℕ → ℕ → Bytes → Bytes → Bytes
copy_between d s zero from to = to
copy_between d s (suc n) from to = copy_between (suc d) (suc s) n from (update to d (from s))

-- What the loop of `readi` and that of `writei` leave: the value returned, the offset, the inode,
-- the log, and the memory of the caller.
pub record Progress : Type 0 where
  pub returned : ℤ
  pub off : ℕ
  pub inode : Inode
  pub log : Log
  pub memory : Bytes

-- `either_copyout` of `m` bytes to `dst` succeeds where `fault dst m` is `none`, and fails behind
-- the first `k` of them where it is `some k`. `fuel` bounds the rounds, each of which copies at
-- least a byte.
unfoldable pub read_from :
    Superblock → (ℕ → ℕ → Option ℕ) → ℕ → ℕ → ℕ → ℕ → ℕ → Inode → Bytes → Log → Option Progress
unfolding bmap copy_between
read_from sb fault n zero tot off dst ip memory s = none
read_from sb fault n (suc fuel) tot off dst ip memory s = elim (ltb tot n) [
  | false ↦ some (record { returned = pos tot; off = off; inode = ip; log = s; memory = memory })
  | true ↦ (do
    (addr, ip', s') ← bmap sb ip (off / bsize) s
    let m = min (n - tot) (bsize - off % bsize)
    elim (addr == 0) [
      | true ↦
          some (record { returned = pos tot; off = off; inode = ip'; log = s'; memory = memory })
      | false ↦ elim (fault dst m) [
        | some k ↦ some (record {
          returned = negsuc 0;
          off = off;
          inode = ip';
          log = s';
          memory = copy_between dst (off % bsize) (min k m) (block_of addr s') memory;
        })
        | none ↦
            read_from sb fault n fuel (tot + m) (off + m) (dst + m) ip'
              (copy_between dst (off % bsize) m (block_of addr s') memory) s'
      ]
    ])
]

unfoldable pub readi :
    Superblock → (ℕ → ℕ → Option ℕ) → Inode → ℕ → ℕ → ℕ → Bytes → Log → Option Progress
unfolding read_from
readi sb fault ip dst off n memory s =
    if ltb ip.size off || ltb ((off + n) % 2 ^ 32) off
    then some (record { returned = pos 0; off = off; inode = ip; log = s; memory = memory })
    else (let n' = if ltb ip.size (off + n) then ip.size - off else n in
        read_from sb fault n' (suc n') 0 off dst ip memory s)

-- What `either_copyin` leaves that fails behind `n` bytes: they are in the buffer, which is not
-- entered into the log.
abbrev pub partly_written : ℕ → ℕ → ℕ → ℕ → Bytes → Log → Log
partly_written addr at src n memory s = record s {
  buffers = copy_to addr (copy_between at src n memory (block_of addr s)) s.buffers;
}

-- A round in which `either_copyin` or `bmap` fails ends the loop; the rounds so far count.
unfoldable pub write_from :
    Superblock → (ℕ → ℕ → Option ℕ) → ℕ → ℕ → ℕ → ℕ → ℕ → Inode → Bytes → Log → Option Progress
unfolding bmap copy_between write_logged
write_from sb fault n zero tot off src ip memory s = none
write_from sb fault n (suc fuel) tot off src ip memory s = elim (ltb tot n) [
  | false ↦ some (record { returned = pos tot; off = off; inode = ip; log = s; memory = memory })
  | true ↦ (do
    (addr, ip', s') ← bmap sb ip (off / bsize) s
    let m = min (n - tot) (bsize - off % bsize)
    elim (addr == 0) [
      | true ↦
          some (record { returned = pos tot; off = off; inode = ip'; log = s'; memory = memory })
      | false ↦ elim (fault src m) [
        | some k ↦ some (record {
          returned = pos tot;
          off = off;
          inode = ip';
          log = partly_written addr (off % bsize) src (min k m) memory s';
          memory = memory;
        })
        | none ↦ (do
          s'' ← write_logged addr (copy_between (off % bsize) src m memory (block_of addr s')) s'
          write_from sb fault n fuel (tot + m) (off + m) (src + m) ip' memory s'')
      ]
    ])
]

unfoldable pub writei :
    Superblock → (ℕ → ℕ → Option ℕ) → Inode → ℕ → ℕ → ℕ → Bytes → Log → Option Progress
unfolding write_from iupdate
writei sb fault ip src off n memory s =
    if ltb ip.size off || ltb ((off + n) % 2 ^ 32) off
    then some (record { returned = negsuc 0; off = off; inode = ip; log = s; memory = memory })
    else if ltb (maxfile * bsize) (off + n)
    then some (record { returned = negsuc 0; off = off; inode = ip; log = s; memory = memory })
    else (do
      r ← write_from sb fault n (suc n) 0 off src ip memory s
      let ip' = if ltb r.inode.size r.off then record r.inode { size = r.off } else r.inode
      s' ← iupdate sb ip' r.log
      some (record r { inode = ip'; log = s' }))
