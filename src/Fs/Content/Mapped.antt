-- ===== src/Fs/Content/Mapped.antt =====
-- Files of kernel/fs.c whose blocks are allocated: where `bmap` finds them.
use raid_system.Prelude.{
  ℕ, suc, ◌+◌, ◌-◌, ◌*◌, ◌<◌, ◌≡◌, ◌≢◌, refl, arith, some, ltb, if◌then◌else◌, lt→ltb, ==_ne, inl,
  inr, Bool-cases, length, get_or, get_elem?-eq-get_or,
}
use raid_system.Log.{Log}
use raid_system.Fs.{Superblock, ndirect, nindirect, maxfile, block_of}
use raid_system.Fs.Words.{get_word}
use raid_system.Fs.Inode.{Inode, alloc_at, alloc_entry, bmap}

-- The indirect block
abbrev pub indirect : Inode → ℕ
indirect ip = get_or ip.addrs ndirect 0

-- The address of block `bn` of the file, 0 if it has none.
abbrev pub addr_of : Inode → Log → ℕ → ℕ
addr_of ip s bn =
    if ltb bn ndirect
    then get_or ip.addrs bn 0
    else get_word 4 (4 * (bn - ndirect)) (block_of (indirect ip) s)

-- Blocks below `blocks` are allocated.
pub record IsMapped (ip : Inode) (s : Log) (blocks : ℕ) : Type 0 where
  pub size_addrs : length ip.addrs ≡ 13
  pub in_range : blocks < suc maxfile
  pub direct : (bn : ℕ) → bn < blocks → bn < ndirect → get_or ip.addrs bn 0 ≢ 0
  pub root : ndirect < blocks → indirect ip ≢ 0
  pub entries :
      (bn : ℕ) → ndirect + bn < blocks → get_word 4 (4 * bn) (block_of (indirect ip) s) ≢ 0

module _ (sb : Superblock) (ip : Inode) (s : Log) (blocks : ℕ) (mapped : IsMapped ip s blocks) where
  alloc_at_mapped :
      (i : ℕ)
      → i < 13
      → get_or ip.addrs i 0 ≢ 0
      → alloc_at sb i ip s ≡ some (get_or ip.addrs i 0, ip, s)
  unfolding alloc_at
  alloc_at_mapped i h ne =
      let there = get_elem?-eq-get_or ip.addrs i 0 (omega (arith, mapped.size_addrs)) in
      rw (there, ==_ne (get_or ip.addrs i 0) 0 ne) refl

  alloc_entry_mapped :
      (bn : ℕ)
      → get_word 4 (4 * bn) (block_of (indirect ip) s) ≢ 0
      → alloc_entry sb (indirect ip) bn s ≡ some (get_word 4 (4 * bn) (block_of (indirect ip) s), s)
  unfolding alloc_entry
  alloc_entry_mapped bn ne = rw (==_ne (get_word 4 (4 * bn) (block_of (indirect ip) s)) 0 ne) refl

  pub addr_of_ne : (bn : ℕ) → bn < blocks → addr_of ip s bn ≢ 0
  addr_of_ne bn h = elim (Bool-cases (ltb bn ndirect)) [
    | inl e ↦ rw e (mapped.direct bn h (ground arith))
    | inr e ↦
        let far : ndirect + (bn - ndirect) < blocks = ground arith in
        rw e (mapped.entries (bn - ndirect) far)
  ]

  -- Of an allocated block `bmap` returns the address and changes nothing.
  pub bmap_mapped : (bn : ℕ) → bn < blocks → bmap sb ip bn s ≡ some (addr_of ip s bn, ip, s)
  unfolding bmap
  bmap_mapped bn h = elim (Bool-cases (ltb bn ndirect)) [
    | inl e ↦
        let near : bn < ndirect = ground arith in
        rw e (alloc_at_mapped bn (omega arith) (mapped.direct bn h near))
    | inr e ↦
        let far : ndirect + (bn - ndirect) < blocks = ground arith in
        let some_root : ndirect < blocks = omega arith in
        let fits : bn - ndirect < nindirect = omega (arith, mapped.in_range) in
        rw
          (
            e,
            lt→ltb (bn - ndirect) nindirect fits,
            alloc_at_mapped ndirect (omega arith) (mapped.root some_root),
            ==_ne (indirect ip) 0 (mapped.root some_root),
            alloc_entry_mapped (bn - ndirect) (mapped.entries (bn - ndirect) far),
          )
          refl
  ]
