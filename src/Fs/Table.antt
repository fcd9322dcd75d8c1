-- ===== src/Fs/Table.antt =====
-- The inodes in memory of kernel/fs.c: `iget`, `idup` and `iput`.
pub mod Scan
pub mod Get
use raid_system.Prelude.{
  ℕ, zero, suc, ◌+◌, ◌-◌, Bool, true, false, Option, none, some, ◌>>=◌, ◌>>◌, guard, ltb, ◌==◌,
  ◌&&◌, if◌then◌else◌, update,
}
use raid_system.Log.{Log}
use raid_system.Fs.{Superblock}
use raid_system.Fs.Inode.{Inode, itrunc, iupdate}

abbrev pub ninode : ℕ
ninode = 50

-- `itable`: a pointer to an inode is its index below `ninode`.
abbrev pub Itable : Type 0
Itable = ℕ → Inode

abbrev pub is_held : ℕ → ℕ → Inode → Bool
is_held dev inum ip = ltb 0 ip.ref && (ip.dev == dev && ip.inum == inum)

-- `if(empty == 0 && ip->ref == 0) empty = ip`
abbrev pub remember : Option ℕ → ℕ → Inode → Option ℕ
remember (some k) i ip = some k
remember none i ip = if ip.ref == 0 then some i else none

-- The loop of `iget`, `n` rounds from `i` on: the inode that it returns, or the entry that it
-- remembers.
unfoldable pub scan : ℕ → ℕ → Itable → ℕ → ℕ → Option ℕ → Option ℕ × Option ℕ
scan dev inum t zero i empty = (none, empty)
scan dev inum t (suc n) i empty = elim (is_held dev inum (t i)) [
  | true ↦ (some i, empty)
  | false ↦ scan dev inum t n (suc i) (remember empty i (t i))
]

-- A count that is taken up or down by one
abbrev pub with_ref : Itable → ℕ → ℕ → Itable
with_ref t i ref = update t i (record (t i) { ref = ref })

-- `none` is the panic of no inodes.
unfoldable pub iget : ℕ → ℕ → Itable → Option (ℕ × Itable)
unfolding scan
iget dev inum t =
    let r = scan dev inum t ninode 0 none in
    elim r.0 [
      | some i ↦ some (i, with_ref t i (suc (t i).ref))
      | none ↦ (do
        i ← r.1
        some (i, update t i (record (t i) { dev = dev; inum = inum; ref = 1; valid = false })))
    ]

unfoldable pub idup : ℕ → Itable → Itable
idup i t = with_ref t i (suc (t i).ref)

-- `if(ip->ref == 1 && ip->valid && ip->nlink == 0)`
abbrev pub is_last : Inode → Bool
is_last ip = ip.ref == 1 && (ip.valid && ip.nlink == 0)

-- What `iput` does before it drops the reference. The lock of the inode is free then.
unfoldable pub free_inode : Superblock → Inode → Log → Option (Inode × Log)
unfolding itrunc iupdate
free_inode sb ip s = do
  (ip₁, s₁) ← itrunc sb ip s
  let ip₂ = record ip₁ { type = 0 }
  s₂ ← iupdate sb ip₂ s₁
  some (record ip₂ { valid = false }, s₂)

-- A count below 0 is `none`.
unfoldable pub iput : Superblock → ℕ → Itable → Log → Option (Itable × Log)
unfolding free_inode
iput sb i t s = do
  (ip, s') ← (if is_last (t i) then free_inode sb (t i) s else some (t i, s))
  guard (ltb 0 ip.ref)
  some (update t i (record ip { ref = ip.ref - 1 }), s')
