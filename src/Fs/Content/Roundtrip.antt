-- ===== src/Fs/Content/Roundtrip.antt =====
-- `writei` of kernel/fs.c on a file whose blocks are allocated, and `readi` of what it wrote.
use native.Mathlib.Decide.{dec_lt}
use raid_system.Prelude.{
  none, ℕ, suc, ◌+◌, ◌-◌, ◌*◌, ◌/◌, ◌%◌, ◌^◌, ◌≤◌, ◌<◌, ◌≡◌, ◌≢◌, refl, sym, ◌∙◌, ap, subst, arith,
  false, Option, some, ltb, if◌then◌else◌, le→ltb, inl, inr, ◌⊎◌, pos, Bool-cases, leb, ◌&&◌,
  le→leb, lt→leb_false, lt→ltb, update_ne,
}
use raid_system.Log.{Log}
use raid_system.Log.Room.{HasRoom}
use raid_system.Memory.{Bytes}
use raid_system.Fs.{Superblock, bsize, maxfile, iblock, block_of}
use raid_system.Fs.Inode.{Inode, put_dinode, iupdate}
use raid_system.Fs.Alloc.Search.{write_logged-Writes}
use raid_system.Fs.Content.{Progress, readi, write_from, writei}
use raid_system.Fs.Content.Mapped.{addr_of, indirect, IsMapped}
use raid_system.Fs.Content.Patch.{IsSeparate, IsSeparate-same, addr_of-same, file_byte-same}
use raid_system.Fs.Content.Read.{file_byte, readi-Reads}
use raid_system.Fs.Content.Write.{HasRoom_less, Stores}
use raid_system.Fs.Content.Written.{write_from-Stores}

-- The inode with the end of the file at `e` at least
abbrev pub grown : Inode → ℕ → Inode
grown ip e = record ip { size = if ltb ip.size e then e else ip.size }

grown-eq :
    (ip : Inode) (e : ℕ) → (if ltb ip.size e then record ip { size = e } else ip) ≡ grown ip e
grown-eq ip e = elim (Bool-cases (ltb ip.size e)) [ inl t ↦ rw t refl | inr t ↦ rw t refl ]

grown-IsMapped :
    (ip : Inode) (s : Log) (blocks e : ℕ) → IsMapped ip s blocks → IsMapped (grown ip e) s blocks
grown-IsMapped ip s blocks e m = record {
  size_addrs = m.size_addrs;
  in_range = m.in_range;
  direct = m.direct;
  root = m.root;
  entries = m.entries;
}

-- The block of the inode is none of the file's.
pub record IsOutside (sb : Superblock) (ip : Inode) (s : Log) (blocks : ℕ) : Type 0 where
  pub content : (bn : ℕ) → bn < blocks → addr_of ip s bn ≢ iblock sb ip.inum
  pub root : indirect ip ≢ iblock sb ip.inum

-- The call returns `n`; the file has the bytes of the memory from `off` on and its others as
-- before.
pub record Put (ip : Inode) (s : Log) (blocks r off src n : ℕ) (memory : Bytes)
    (result : Option Progress) : Type 0 where
  pub out : Log
  pub returns :
      result
      ≡ some (record {
        returned = pos n;
        off = off + n;
        inode = grown ip (off + n);
        log = out;
        memory = memory;
      })
  pub room : HasRoom out r
  pub mapped : IsMapped ip out blocks
  pub written : (k : ℕ) → k < n → file_byte ip out (off + k) ≡ memory (src + k)
  pub kept :
      (i : ℕ)
      → i < blocks * 1024
      → (i < off) ⊎ (off + n ≤ i)
      → file_byte ip out i ≡ file_byte ip s i

module _ (sb : Superblock) (fault : ℕ → ℕ → Option ℕ) (ip : Inode) (memory : Bytes) (blocks : ℕ)
    (reaches : (a m : ℕ) → fault a m ≡ none) (s : Log) (ok : IsSeparate ip s blocks)
    (outside : IsOutside sb ip s blocks) where
  -- `writei` of `n` bytes within the `blocks` blocks that the file has, the log with room for the
  -- `k` blocks that they reach into and for the inode's: the call succeeds.
  pub writei-Put :
      (r k src off n : ℕ)
      → HasRoom s (suc (r + k))
      → off ≤ ip.size
      → off + n ≤ blocks * 1024
      → off + n ≤ (off / 1024 + k) * 1024
      → Put ip s blocks r off src n memory (writei sb fault ip src off n memory s)
  unfolding writei iupdate
  writei-Put r k src off n has inside fits reach =
      let no_wrap : ltb ((off + n) % 2 ^ 32) off ≡ false = ground (arith, ok.mapped.in_range) in
      let small : off + n ≤ maxfile * bsize = omega (arith, ok.mapped.in_range) in
      let left : n - 0 ≡ n = omega arith in
      let w : Stores ip s blocks (suc r) off src n memory n
          (write_from sb fault n (suc n) 0 off src ip memory s) =
        subst
          (λ x.
            Stores ip s blocks (suc r) off src x memory n
              (write_from sb fault n (suc n) 0 off src ip memory s))
          left
          (write_from-Stores sb fault ip memory blocks n (suc r) reaches (suc n) s 0 off src k ok
            (omega arith) (omega arith) (omega arith)
            (HasRoom_less s (suc (r + k)) (suc r + k) (omega arith) has) (inr (omega arith))) in
      let ip' = grown ip (off + n) in
      let at = iblock sb ip.inum in
      let v = put_dinode ip' (block_of at w.out) in
      let u = write_logged-Writes w.out at v r w.room in
      let same : (b : ℕ) → b ≢ at → block_of b u.out ≡ block_of b w.out =
        λ b ne. ap (λ f. f b) u.buffers ∙ update_ne w.out.buffers.buffer at b v (λ e. ne (sym e)) in
      let separate = IsSeparate-same ip s w.out blocks ok w.root in
      let root = same (indirect ip) outside.root in
      let byte : (i : ℕ) → i < blocks * 1024 → file_byte ip u.out i ≡ file_byte ip w.out i = λ i h.
        file_byte-same ip w.out u.out blocks separate root i (
          same (addr_of ip w.out (i / 1024)) (
            rw (addr_of-same ip s w.out (i / 1024) w.root)
              (outside.content (i / 1024) (omega arith)))) in
      let all = IsSeparate-same ip w.out u.out blocks separate root in
      record {
        out = u.out;
        returns =
            rw (le→ltb ip.size off inside, no_wrap, le→ltb (maxfile * bsize) (off + n) small)
              (rw w.returns (rw (grown-eq ip (off + n)) (rw u.returns refl)));
        room = u.room;
        mapped = all.mapped;
        written = λ i h. byte (off + i) (omega arith) ∙ w.written i h;
        kept = λ i h out. byte i h ∙ w.kept i h out;
      }

  -- A byte of the file behind the call
  abbrev pub byte_after : ℕ → ℕ → ℕ → ℕ → ℕ
  byte_after off src n i =
      if leb off i && ltb i (off + n) then memory (src + (i - off)) else file_byte ip s i

  byte_after-Put :
      (r off src n : ℕ) (result : Option Progress) (w : Put ip s blocks r off src n memory result)
      (i : ℕ)
      → i < blocks * 1024
      → file_byte ip w.out i ≡ byte_after off src n i
  byte_after-Put r off src n result w i h = elim (dec_lt i off) [
    | yes before ↦ rw (lt→leb_false off i before) (w.kept i h (inl before))
    | no from ↦ elim (dec_lt i (off + n)) [
      | yes within ↦
          let e : off + (i - off) ≡ i = omega arith in
          rw (le→leb off i (omega arith), lt→ltb i (off + n) within)
            (ap (λ x. file_byte ip w.out x) (sym e) ∙ w.written (i - off) (omega arith))
      | no behind ↦
          rw (le→leb off i (omega arith), le→ltb i (off + n) (omega arith))
            (w.kept i h (inr (omega arith)))
    ]
  ]

  grown_le : (e m : ℕ) → ip.size ≤ m → e ≤ m → (grown ip e).size ≤ m
  grown_le e m a b = ground arith

  -- `writei` puts `n` bytes of memory into a file at `off`, and `readi` then copies `q` bytes of
  -- the file from `p` on to `dst`: both succeed in full, and each byte copied is the one written
  -- where the write covers its place, and the file's old byte elsewhere. The conditions: no
  -- copy from or to the caller fails; the first `blocks` blocks of the file are allocated and
  -- different, and none of them is the block of the addresses or of the inode, which are
  -- different too; the file ends within these blocks, and so does the write; `off` is not behind
  -- the end; the log has room for the `k` blocks that the write reaches into and one more; the
  -- bytes read lie within the file as the write leaves it.
  pub readi-writei :
      (k src off n dst p q : ℕ) (buffer : Bytes)
      → HasRoom s (suc k)
      → off ≤ ip.size
      → ip.size ≤ blocks * 1024
      → off + n ≤ blocks * 1024
      → off + n ≤ (off / 1024 + k) * 1024
      → p + q ≤ (if ltb ip.size (off + n) then off + n else ip.size)
      → (w : Progress) × (writei sb fault ip src off n memory s ≡ some w)
        × (w.returned ≡ pos n)
        × (out : Bytes) × (readi sb fault w.inode dst p q buffer w.log
            ≡ some (record w { returned = pos q; off = p + q; memory = out }))
        × ((i : ℕ) → i < q → out (dst + i) ≡ byte_after off src n (p + i))
  readi-writei k src off n dst p q buffer has inside end fits reach range =
      let w =
        writei-Put 0 k src off n (HasRoom_less s (suc k) (suc (0 + k)) (omega arith) has) inside
          fits reach in
      let ip' = grown ip (off + n) in
      let bound : ip'.size ≤ blocks * 1024 = grown_le (off + n) (blocks * 1024) end fits in
      let within : p + q ≤ ip'.size = range in
      let r =
        readi-Reads sb fault ip' w.out blocks q (grown-IsMapped ip w.out blocks (off + n) w.mapped)
          reaches dst p q buffer (rw (le→ltb ip'.size (p + q) within) refl) (omega (arith, within))
          (omega (arith, within, bound, ok.mapped.in_range)) bound in
      (
        record { returned = pos n; off = off + n; inode = ip'; log = w.out; memory = memory },
        w.returns,
        refl,
        r.out,
        r.returns,
        λ i h.
            r.moved i h
            ∙ byte_after-Put 0 off src n (writei sb fault ip src off n memory s) w (p + i)
                (omega (arith, within, bound)),
      )
