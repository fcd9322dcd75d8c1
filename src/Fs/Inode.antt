-- ===== src/Fs/Inode.antt =====
-- The inodes of kernel/fs.c: `iupdate`, the load of `ilock`, `bmap`, `itrunc` and `stati`.
pub mod Codec
pub mod Stored
use raid_system.Prelude.{
  ℕ, zero, suc, ◌+◌, ◌-◌, ◌*◌, ◌/◌, ◌%◌, Bool, true, false, Option, none, some, ◌>>=◌, ◌>>◌, guard,
  List, [], ◌∷◌, ltb, ◌==◌, if◌then◌else◌, get_elem?, get_or, set, not,
}
use raid_system.Log.{Log}
use raid_system.Log.Store.{Contents}
use raid_system.Fs.{Superblock, ndirect, nindirect, ipb, iblock, block_of, write_logged}
use raid_system.Fs.Words.{put_word, get_word, put_words, get_words}
use raid_system.Fs.Alloc.{balloc, bfree}

-- struct inode without its lock; `addrs` has `ndirect + 1` elements.
pub record Inode : Type 0 where
  pub dev : ℕ
  pub inum : ℕ
  pub ref : ℕ
  pub valid : Bool
  pub type : ℕ
  pub major : ℕ
  pub minor : ℕ
  pub nlink : ℕ
  pub size : ℕ
  pub addrs : List ℕ

-- The address of the inode within its block
abbrev pub dinode_at : ℕ → ℕ
dinode_at inum = inum % ipb * 64

-- struct dinode: four numbers of two bytes, the size and the addresses of four bytes each.
unfoldable pub put_dinode : Inode → Contents → Contents
unfolding put_words
put_dinode ip c =
    let a = dinode_at ip.inum in
    put_words 4 (a + 12) ip.addrs (
      put_word 4 (a + 8) ip.size (
        put_word 2 (a + 6) ip.nlink
          (put_word 2 (a + 4) ip.minor (put_word 2 (a + 2) ip.major (put_word 2 a ip.type c)))))

unfoldable pub get_dinode : Inode → Contents → Inode
unfolding get_words
get_dinode ip c = record ip {
  type = get_word 2 (dinode_at ip.inum) c;
  major = get_word 2 (dinode_at ip.inum + 2) c;
  minor = get_word 2 (dinode_at ip.inum + 4) c;
  nlink = get_word 2 (dinode_at ip.inum + 6) c;
  size = get_word 4 (dinode_at ip.inum + 8) c;
  addrs = get_words 4 (dinode_at ip.inum + 12) (suc ndirect) c;
}

unfoldable pub iupdate : Superblock → Inode → Log → Option Log
unfolding put_dinode write_logged
iupdate sb ip s =
    write_logged (iblock sb ip.inum) (put_dinode ip (block_of (iblock sb ip.inum) s)) s

-- What `ilock` makes of the fields that it has read; a type of 0 is a panic.
abbrev pub loaded : Inode → Option Inode
loaded ip = do guard (not (ip.type == 0)); some (record ip { valid = true })

-- `ilock` of an inode whose lock is free.
unfoldable pub ilock : Superblock → Inode → Log → Option Inode
unfolding get_dinode
ilock sb ip s = do
  guard (ltb 0 ip.ref)
  if ip.valid then some ip else loaded (get_dinode ip (block_of (iblock sb ip.inum) s))

-- `if((addr = ip->addrs[i]) == 0) { addr = balloc(); ... ip->addrs[i] = addr; }`; 0 is a failure.
unfoldable pub alloc_at : Superblock → ℕ → Inode → Log → Option (ℕ × Inode × Log)
unfolding balloc
alloc_at sb i ip s = do
  addr ← get_elem? ip.addrs i
  if addr == 0
      then (do
        (new, s₁) ← balloc sb s
        if new == 0
            then some (0, ip, s₁)
            else some (new, record ip { addrs = set ip.addrs i new }, s₁))
      else some (addr, ip, s)

-- The entry `bn` of the indirect block `ind`.
unfoldable pub alloc_entry : Superblock → ℕ → ℕ → Log → Option (ℕ × Log)
unfolding balloc write_logged
alloc_entry sb ind bn s =
    let addr = get_word 4 (4 * bn) (block_of ind s) in
    if addr == 0
    then (do
      (new, s₁) ← balloc sb s
      if new == 0 then some (0, s₁) else (do
        s₂ ← write_logged ind (put_word 4 (4 * bn) new (block_of ind s₁)) s₁
        some (new, s₂)))
    else some (addr, s)

unfoldable pub bmap : Superblock → Inode → ℕ → Log → Option (ℕ × Inode × Log)
unfolding alloc_at alloc_entry
bmap sb ip bn s =
    if ltb bn ndirect
    then alloc_at sb bn ip s
    else if ltb (bn - ndirect) nindirect
    then (do
      (ind, ip', s₁) ← alloc_at sb ndirect ip s
      if ind == 0
          then some (0, ip', s₁)
          else (do (addr, s₂) ← alloc_entry sb ind (bn - ndirect) s₁; some (addr, ip', s₂)))
    else none

-- The first loop of `itrunc`, `n` blocks from `i` on.
unfoldable pub free_direct : Superblock → ℕ → ℕ → Inode → Log → Option (Inode × Log)
unfolding bfree
free_direct sb zero i ip s = some (ip, s)
free_direct sb (suc n) i ip s = do
  addr ← get_elem? ip.addrs i
  (ip', s') ←
      (if addr == 0
        then some (ip, s)
        else (do s₁ ← bfree sb addr s; some (record ip { addrs = set ip.addrs i 0 }, s₁)))
  free_direct sb n (suc i) ip' s'

-- The loop over the indirect block `ind`.
unfoldable pub free_entries : Superblock → ℕ → ℕ → ℕ → Log → Option Log
unfolding bfree
free_entries sb ind zero j s = some s
free_entries sb ind (suc n) j s = do
  let addr = get_word 4 (4 * j) (block_of ind s)
  s' ← (if addr == 0 then some s else bfree sb addr s)
  free_entries sb ind n (suc j) s'

unfoldable pub itrunc : Superblock → Inode → Log → Option (Inode × Log)
unfolding free_direct free_entries bfree iupdate
itrunc sb ip s = do
  (ip₁, s₁) ← free_direct sb ndirect 0 ip s
  ind ← get_elem? ip₁.addrs ndirect
  (ip₂, s₂) ←
      (if ind == 0 then some (ip₁, s₁) else (do
        t ← free_entries sb ind nindirect 0 s₁
        t' ← bfree sb ind t
        some (record ip₁ { addrs = set ip₁.addrs ndirect 0 }, t')))
  let ip₃ = record ip₂ { size = 0 }
  s₃ ← iupdate sb ip₃ s₂
  some (ip₃, s₃)

-- struct stat
pub record Stat : Type 0 where
  pub dev : ℕ
  pub ino : ℕ
  pub type : ℕ
  pub nlink : ℕ
  pub size : ℕ

unfoldable pub stati : Inode → Stat
stati ip = record { dev = ip.dev; ino = ip.inum; type = ip.type; nlink = ip.nlink; size = ip.size }
