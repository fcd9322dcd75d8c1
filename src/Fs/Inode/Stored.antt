-- ===== src/Fs/Inode/Stored.antt =====
-- The inodes on the disk of kernel/fs.c behind `iupdate`.
use raid_system.Prelude.{
  ℕ, suc, ◌+◌, ◌*◌, ◌/◌, ◌%◌, ◌≤◌, ◌<◌, ◌≡◌, ◌≢◌, refl, sym, ◌∙◌, ap, subst, arith, true, false,
  ◌⊎◌, inl, inr, update, update_self, update_ne, some, lt→ltb, ==_ne, ==_eq, ◌==◌, if◌then◌else◌,
}
use native.Mathlib.Decide.{ℕ_discrete, dec_lt}
use raid_system.Log.{Log}
use raid_system.Log.Store.{Contents}
use raid_system.Log.Room.{HasRoom}
use raid_system.Fs.{Superblock, iblock, block_of}
use raid_system.Fs.Words.Laws.{get_word-same, get_words-same}
use raid_system.Fs.Alloc.Search.{write_logged-Writes}
use raid_system.Fs.Inode.{Inode, dinode_at, put_dinode, get_dinode, iupdate, ilock, loaded}
use raid_system.Fs.Inode.Codec.{
  IsInode, get-type, get-major, get-minor, get-nlink, get-size, get-addrs, put_dinode_outside,
}

-- The entry `kp` of the table with what the disk keeps of `ip`
abbrev pub with_fields : Inode → Inode → Inode
with_fields kp ip = record kp {
  type = ip.type;
  major = ip.major;
  minor = ip.minor;
  nlink = ip.nlink;
  size = ip.size;
  addrs = ip.addrs;
}

-- What the disk has of the inode `kp`
abbrev pub stored : Superblock → Inode → Log → Inode
stored sb kp s = get_dinode kp (block_of (iblock sb kp.inum) s)

get_dinode-put_dinode :
    (ip kp : Inode) (c : Contents)
    → IsInode ip
    → ip.inum ≡ kp.inum
    → get_dinode kp (put_dinode ip c) ≡ with_fields kp ip
unfolding get_dinode
get_dinode-put_dinode ip kp c ok e = rw (sym e) (
    rw
      (
        get-type ip ok c,
        get-major ip ok c,
        get-minor ip ok c,
        get-nlink ip ok c,
        get-size ip ok c,
        get-addrs ip ok c,
      )
      refl)

-- Bytes that an inode does not use do not change it.
get_dinode-same :
    (kp : Inode) (c d : Contents)
    → ((i : ℕ) → dinode_at kp.inum ≤ i → i < dinode_at kp.inum + 64 → c i ≡ d i)
    → get_dinode kp c ≡ get_dinode kp d
unfolding get_dinode
get_dinode-same kp c d same =
    let a = dinode_at kp.inum in
    let short = λ (o : ℕ) (h : o + 2 ≤ 64).
      get_word-same 2 (a + o) c d (λ i lo hi. same i (omega arith) (omega arith)) in
    let type = get_word-same 2 a c d (λ i lo hi. same i lo (omega arith)) in
    let size = get_word-same 4 (a + 8) c d (λ i lo hi. same i (omega arith) (omega arith)) in
    let addrs = get_words-same 4 13 (a + 12) c d (λ i lo hi. same i (omega arith) (omega arith)) in
    rw (type, short 2 (omega arith), short 4 (omega arith), short 6 (omega arith), size, addrs) refl

ilock-loaded :
    (sb : Superblock) (jp : Inode) (s : Log)
    → 0 < jp.ref
    → jp.valid ≡ false
    → ilock sb jp s ≡ loaded (stored sb jp s)
unfolding ilock
ilock-loaded sb jp s held cold = rw (lt→ltb 0 jp.ref held) (simp cold)

-- `iupdate` of an inode whose type is not 0, whose fields fit in their bytes and which has its 13
-- addresses, with room in the log, succeeds: the buffers of the log have the fields of the inode
-- under its number and every other inode as before. `ilock` of an entry of the table for that
-- number, in use and not valid, then loads those fields.
pub ilock-iupdate :
    (sb : Superblock) (ip jp : Inode) (s : Log) (r : ℕ)
    → IsInode ip
    → ip.type ≢ 0
    → HasRoom s (suc r)
    → ip.inum ≡ jp.inum
    → 0 < jp.ref
    → jp.valid ≡ false
    → (s' : Log) × (iupdate sb ip s ≡ some s')
      × ((kp : Inode)
          → stored sb kp s' ≡ (if ip.inum == kp.inum then with_fields kp ip else stored sb kp s))
      × (ilock sb jp s' ≡ some (record (with_fields jp ip) { valid = true }))
unfolding iupdate
ilock-iupdate sb ip jp s r ok typed has same held cold =
    let c = block_of (iblock sb ip.inum) s in
    let w = write_logged-Writes s (iblock sb ip.inum) (put_dinode ip c) r has in
    let here : (kp : Inode) → ip.inum ≡ kp.inum → stored sb kp w.out ≡ with_fields kp ip = λ kp e.
      let block : block_of (iblock sb kp.inum) w.out ≡ put_dinode ip c =
        ap (λ f. f (iblock sb kp.inum)) w.buffers
        ∙ subst
            (λ x.
              update s.buffers.buffer (iblock sb ip.inum) (put_dinode ip c) (iblock sb x)
              ≡ put_dinode ip c)
            e (update_self s.buffers.buffer (iblock sb ip.inum) (put_dinode ip c)) in
      ap (get_dinode kp) block ∙ get_dinode-put_dinode ip kp c ok e in
    let there : (kp : Inode) → ip.inum ≢ kp.inum → stored sb kp w.out ≡ stored sb kp s = λ kp ne.
      elim (ℕ_discrete (iblock sb ip.inum) (iblock sb kp.inum)) [
        | no far ↦ ap (get_dinode kp) (
            ap (λ f. f (iblock sb kp.inum)) w.buffers
            ∙ update_ne s.buffers.buffer (iblock sb ip.inum) (iblock sb kp.inum) (put_dinode ip c)
                far)
        | yes near ↦
            let block : block_of (iblock sb kp.inum) w.out ≡ put_dinode ip c =
              ap (λ f. f (iblock sb kp.inum)) w.buffers
              ∙ subst
                  (λ x.
                    update s.buffers.buffer (iblock sb ip.inum) (put_dinode ip c) x
                    ≡ put_dinode ip c)
                  near (update_self s.buffers.buffer (iblock sb ip.inum) (put_dinode ip c)) in
            let old : c ≡ block_of (iblock sb kp.inum) s = ap (λ x. block_of x s) near in
            ap (get_dinode kp) block
            ∙ get_dinode-same kp (put_dinode ip c) c
                (λ i lo hi. put_dinode_outside ip ok c i (apart ip.inum kp.inum i near ne lo hi))
            ∙ ap (get_dinode kp) old
      ] in
    let reads = here jp same in
    (
      w.out,
      w.returns,
      (λ kp. elim (ℕ_discrete ip.inum kp.inum) [
        | yes e ↦ here kp e ∙ rw (==_eq ip.inum kp.inum e) refl
        | no ne ↦ there kp ne ∙ rw (==_ne ip.inum kp.inum ne) refl
      ]),
      ilock-loaded sb jp w.out held cold ∙ ap loaded reads ∙ rw (==_ne ip.type 0 typed) refl,
    )
  where
    apart :
        (m n i : ℕ)
        → m / 16 + sb.inodestart ≡ n / 16 + sb.inodestart
        → m ≢ n
        → n % 16 * 64 ≤ i
        → i < n % 16 * 64 + 64
        → (i < m % 16 * 64) ⊎ (m % 16 * 64 + 64 ≤ i)
    apart m n i near ne lo hi = elim (dec_lt i (m % 16 * 64)) [
      | yes l ↦ inl l
      | no h ↦ inr (omega arith)
    ]
