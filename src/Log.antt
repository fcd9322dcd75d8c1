-- ===== src/Log.antt =====
-- kernel/log.c: the log that makes the file system's writes atomic, over the buffers of
-- kernel/bio.c.
pub mod Store
pub mod Install
pub mod Copy
pub mod Recover
pub mod Commit
pub mod Find
pub mod Space
pub mod Room
mod Tests
use raid_system.Prelude.{
  ◌>>=◌, ◌>>◌, guard, ℕ, zero, suc, ◌+◌, ◌-◌, ◌*◌, Bool, true, false, ◌||◌, Option, none, some,
  List, ltb, leb, ◌==◌, if◌then◌else◌, get_elem?, set,
}
use Store.{Contents, Buffers, bread, copy_to, bwrite, bpin, bunpin}

abbrev pub maxopblocks : ℕ
maxopblocks = 10

abbrev pub logsize : ℕ
logsize = maxopblocks * 3

-- struct logheader; `block` has `logsize` elements.
pub record LogHeader : Type 0 where
  pub n : ℕ
  pub block : List ℕ

-- struct log, the buffers, and the header as the block `start` of the disk holds it. No lock and
-- no device number.
pub record Log : Type 0 where
  pub start : ℕ
  pub size : ℕ
  pub outstanding : ℕ
  pub committing : Bool
  pub lh : LogHeader
  pub head : LogHeader
  pub buffers : Buffers

-- The rounds of `install_trans` from `tail` on.
unfoldable pub install_from : Bool → ℕ → ℕ → Log → Option Log
unfolding bunpin
install_from recovering zero tail s = some s
install_from recovering (suc k) tail s = do
  dbuf ← get_elem? s.lh.block tail
  let b = bwrite dbuf (copy_to dbuf (bread (s.start + tail + 1) s.buffers) s.buffers)
  b' ← if recovering then some b else bunpin dbuf b
  install_from recovering k (suc tail) (record s { buffers = b' })

unfoldable pub install_trans : Bool → Log → Option Log
unfolding install_from
install_trans recovering s = install_from recovering s.lh.n 0 s

-- `to[i] = from[i]` for the first `k` numbers of the blocks.
unfoldable pub copy_blocks : ℕ → ℕ → List ℕ → List ℕ → Option (List ℕ)
copy_blocks zero i from to = some to
copy_blocks (suc k) i from to = do
  b ← get_elem? from i
  get_elem? to i
  copy_blocks k (suc i) from (set to i b)

unfoldable pub read_head : Log → Option Log
unfolding copy_blocks
read_head s = do
  block ← copy_blocks s.head.n 0 s.head.block s.lh.block
  some (record s { lh = record { n = s.head.n; block = block } })

unfoldable pub write_head : Log → Option Log
unfolding copy_blocks
write_head s = do
  block ← copy_blocks s.lh.n 0 s.lh.block s.head.block
  some (record s { head = record { n = s.lh.n; block = block } })

-- log.lh.n = 0
abbrev pub empty_log : Log → Log
empty_log s = record s { lh = record s.lh { n = 0 } }

unfoldable pub recover_from_log : Log → Option Log
unfolding read_head install_trans write_head
recover_from_log s = do s₁ ← read_head s; s₂ ← install_trans true s₁; write_head (empty_log s₂)

-- What the superblock says of the log, and the recovery.
unfoldable pub initlog : ℕ → ℕ → Log → Option Log
unfolding recover_from_log
initlog logstart nlog s = recover_from_log (record s { start = logstart; size = nlog })

-- One round of the loop: `false` is a round that sleeps.
unfoldable pub begin_op : Log → Bool × Log
begin_op s =
    if s.committing
    then (false, s)
    else if ltb logsize (s.lh.n + suc s.outstanding * maxopblocks)
    then (false, s)
    else (true, record s { outstanding = suc s.outstanding })

unfoldable pub write_from : ℕ → ℕ → Log → Option Log
write_from zero tail s = some s
write_from (suc k) tail s = do
  from ← get_elem? s.lh.block tail
  let to = s.start + tail + 1
  let b = bwrite to (copy_to to (bread from s.buffers) s.buffers)
  write_from k (suc tail) (record s { buffers = b })

unfoldable pub write_log : Log → Option Log
unfolding write_from
write_log s = write_from s.lh.n 0 s

unfoldable pub commit : Log → Option Log
unfolding write_log write_head install_trans
commit s =
    if ltb 0 s.lh.n
    then (do
      s₁ ← write_log s
      s₂ ← write_head s₁
      s₃ ← install_trans false s₂
      write_head (empty_log s₃))
    else some s

-- A negative `outstanding` is `none`.
unfoldable pub end_op : Log → Option Log
unfolding commit
end_op s = do
  guard (ltb 0 s.outstanding)
  let s₁ = record s { outstanding = s.outstanding - 1 }
  if s.committing
      then none
      else if s.outstanding - 1 == 0
      then (do
        s₂ ← commit (record s₁ { committing = true })
        some (record s₂ { committing = false }))
      else some s₁

-- The index below `k` of a block that is in the log, or `k`.
unfoldable pub find_logged : ℕ → List ℕ → ℕ → ℕ → Option ℕ
find_logged blockno block zero i = some i
find_logged blockno block (suc k) i = do
  b ← get_elem? block i
  elim (b == blockno) [ true ↦ some i | false ↦ find_logged blockno block k (suc i) ]

unfoldable pub log_write : ℕ → Log → Option Log
unfolding find_logged
log_write blockno s =
    if leb logsize s.lh.n || leb (s.size - 1) s.lh.n
    then none
    else if ltb s.outstanding 1
    then none
    else (do
      i ← find_logged blockno s.lh.block s.lh.n 0
      get_elem? s.lh.block i
      let block = set s.lh.block i blockno
      if i == s.lh.n
          then some (record s {
            lh = record { n = suc s.lh.n; block = block };
            buffers = bpin blockno s.buffers;
          })
          else some (record s { lh = record { n = s.lh.n; block = block } }))
