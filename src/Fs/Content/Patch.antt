-- ===== src/Fs/Content/Patch.antt =====
-- A write to one block of a file of kernel/fs.c.
use raid_system.Prelude.{
  ℕ, ◌-◌, ◌*◌, ◌/◌, ◌%◌, ◌<◌, ◌≡◌, ◌≢◌, sym, ◌∙◌, ap, subst, ltb, if◌then◌else◌, update,
  update_self, update_ne, get_or,
}
use raid_system.Log.{Log}
use raid_system.Log.Store.{Contents}
use raid_system.Fs.{ndirect, block_of}
use raid_system.Fs.Words.{get_word}
use raid_system.Fs.Inode.{Inode}
use raid_system.Fs.Content.Mapped.{addr_of, indirect, IsMapped}
use raid_system.Fs.Content.Read.{file_byte}

-- The blocks of the file are allocated, different ones, and none of them is the indirect block.
pub record IsSeparate (ip : Inode) (s : Log) (blocks : ℕ) : Type 0 where
  pub mapped : IsMapped ip s blocks
  pub distinct :
      (bn bm : ℕ) → bn < blocks → bm < blocks → addr_of ip s bn ≡ addr_of ip s bm → bn ≡ bm
  pub apart : (bn : ℕ) → bn < blocks → addr_of ip s bn ≢ indirect ip

pub addr_of-same :
    (ip : Inode) (s t : Log) (bn : ℕ)
    → block_of (indirect ip) t ≡ block_of (indirect ip) s
    → addr_of ip t bn ≡ addr_of ip s bn
addr_of-same ip s t bn e =
    ap
      (λ (c : Contents).
        if ltb bn ndirect then get_or ip.addrs bn 0 else get_word 4 (4 * (bn - ndirect)) c)
      e

module _ (ip : Inode) (s t : Log) (blocks : ℕ) (ok : IsSeparate ip s blocks)
    (same : block_of (indirect ip) t ≡ block_of (indirect ip) s) where
  -- Where the indirect block is as it was, the file has the same blocks.
  pub IsSeparate-same : IsSeparate ip t blocks
  IsSeparate-same = record {
    mapped = record {
      size_addrs = ok.mapped.size_addrs;
      in_range = ok.mapped.in_range;
      direct = ok.mapped.direct;
      root = ok.mapped.root;
      entries = λ bn h. rw same (ok.mapped.entries bn h);
    };
    distinct = λ bn bm h h' e.
        ok.distinct bn bm h h'
          (sym (addr_of-same ip s t bn same) ∙ e ∙ addr_of-same ip s t bm same);
    apart = λ bn h. rw (addr_of-same ip s t bn same) (ok.apart bn h);
  }

  pub file_byte-same :
      (i : ℕ)
      → block_of (addr_of ip s (i / 1024)) t ≡ block_of (addr_of ip s (i / 1024)) s
      → file_byte ip t i ≡ file_byte ip s i
  file_byte-same i e =
      ap (λ a. block_of a t (i % 1024)) (addr_of-same ip s t (i / 1024) same)
      ∙ ap (λ (c : Contents). c (i % 1024)) e

  pub file_byte-at : (i : ℕ) → file_byte ip t i ≡ block_of (addr_of ip s (i / 1024)) t (i % 1024)
  file_byte-at i = ap (λ a. block_of a t (i % 1024)) (addr_of-same ip s t (i / 1024) same)

-- The block `b` of the file is overwritten.
module _ (ip : Inode) (s t : Log) (blocks b : ℕ) (v : Contents) (ok : IsSeparate ip s blocks)
    (inside : b < blocks)
    (written : t.buffers.buffer ≡ update s.buffers.buffer (addr_of ip s b) v) where
  pub indirect-same : block_of (indirect ip) t ≡ block_of (indirect ip) s
  indirect-same =
      ap (λ f. f (indirect ip)) written
      ∙ update_ne s.buffers.buffer (addr_of ip s b) (indirect ip) v (ok.apart b inside)

  pub byte-written : (i : ℕ) → i / 1024 ≡ b → file_byte ip t i ≡ v (i % 1024)
  byte-written i e =
      file_byte-at ip s t blocks ok indirect-same i
      ∙ ap (λ f. f (addr_of ip s (i / 1024)) (i % 1024)) written
      ∙ subst
          (λ x.
            update s.buffers.buffer (addr_of ip s b) v (addr_of ip s x) (i % 1024) ≡ v (i % 1024))
          (sym e)
          (ap (λ (c : Contents). c (i % 1024)) (update_self s.buffers.buffer (addr_of ip s b) v))

  pub byte-kept : (i : ℕ) → i / 1024 < blocks → i / 1024 ≢ b → file_byte ip t i ≡ file_byte ip s i
  byte-kept i h ne = file_byte-same ip s t blocks ok indirect-same i (
      ap (λ f. f (addr_of ip s (i / 1024))) written
      ∙ update_ne s.buffers.buffer (addr_of ip s b) (addr_of ip s (i / 1024)) v
          (λ e. ne (sym (ok.distinct b (i / 1024) inside h e))))
