-- ===== src/Bcache.antt =====
-- kernel/bio.c: the cache of disk blocks, in order of use.
pub mod Find
pub mod Coherent
pub mod Read
pub mod Write
pub mod Init
mod Tests
use raid_system.Prelude.{
  ℕ, zero, suc, ◌-◌, Bool, true, false, Option, none, some, ◌>>=◌, ◌>>◌, guard, List, [], ◌∷◌, ltb,
  ◌==◌, ◌&&◌, if◌then◌else◌, update,
}
use raid_system.Log.Store.{Contents}

abbrev pub nbuf : ℕ
nbuf = 30

-- struct buf without its lock and the links of the list; `bytes` is `data`.
pub record Buf : Type 0 where
  pub valid : Bool
  pub dev : ℕ
  pub blockno : ℕ
  pub refcnt : ℕ
  pub bytes : Contents

-- `bcache`, and the blocks of disk 0. A pointer to a buffer is its index in `bcache.buf`; `order`
-- has the buffers of the list from `head.next`, the most recently used, to `head.prev`.
pub record Bcache : Type 0 where
  pub buf : ℕ → Buf
  pub order : List ℕ
  pub disk : ℕ → Contents

-- The list after the `n` first rounds of the loop of `binit`
unfoldable pub linked : ℕ → List ℕ
linked zero = []
linked (suc n) = n ∷ linked n

-- `binit` on memory that is all 0.
unfoldable pub binit : (ℕ → Contents) → Bcache
unfolding linked
binit disk = record {
  buf = λ i. record { valid = false; dev = 0; blockno = 0; refcnt = 0; bytes = λ j. 0 };
  order = linked nbuf;
  disk = disk;
}

abbrev pub is_for : ℕ → ℕ → Buf → Bool
is_for dev blockno b = b.dev == dev && b.blockno == blockno

-- The first loop of `bget`
unfoldable pub find_cached : ℕ → ℕ → (ℕ → Buf) → List ℕ → Option ℕ
find_cached dev blockno buf [] = none
find_cached dev blockno buf (i ∷ order) = elim (is_for dev blockno (buf i)) [
  | true ↦ some i
  | false ↦ find_cached dev blockno buf order
]

-- The second loop of `bget`, which starts at the end of the list.
unfoldable pub find_unused : (ℕ → Buf) → List ℕ → Option ℕ
find_unused buf [] = none
find_unused buf (i ∷ order) = elim (find_unused buf order) [
  | some j ↦ some j
  | none ↦ (if (buf i).refcnt == 0 then some i else none)
]

abbrev pub with_buf : Bcache → ℕ → Buf → Bcache
with_buf s i b = record s { buf = update s.buf i b }

-- `none` is the panic of no buffers.
unfoldable pub bget : ℕ → ℕ → Bcache → Option (ℕ × Bcache)
unfolding find_cached find_unused
bget dev blockno s = elim (find_cached dev blockno s.buf s.order) [
  | some i ↦ some (i, with_buf s i (record (s.buf i) { refcnt = suc (s.buf i).refcnt }))
  | none ↦ (do
    i ← find_unused s.buf s.order
    some (
      i,
      with_buf s i (record (s.buf i) { dev = dev; blockno = blockno; valid = false; refcnt = 1 }),
    ))
]

-- What `bread` does to the buffer that it has got.
abbrev pub filled : Bcache → Buf → Buf
filled s b = if b.valid then b else record b { valid = true; bytes = s.disk b.blockno }

unfoldable pub bread : ℕ → ℕ → Bcache → Option (ℕ × Bcache)
unfolding bget
bread dev blockno s = do
  (i, s') ← bget dev blockno s
  some (i, with_buf s' i (filled s' (s'.buf i)))

-- The caller of `bwrite` and of `brelse` holds the lock of the buffer.
unfoldable pub bwrite : ℕ → Bcache → Bcache
bwrite i s = record s { disk = update s.disk (s.buf i).blockno (s.buf i).bytes }

-- The list without the buffer `i`
unfoldable pub unlink : ℕ → List ℕ → List ℕ
unlink i [] = []
unlink i (j ∷ order) = if j == i then order else j ∷ unlink i order

-- A count of references below 0 is `none`, here and in `bunpin`.
unfoldable pub brelse : ℕ → Bcache → Option Bcache
unfolding unlink
brelse i s = do
  guard (ltb 0 (s.buf i).refcnt)
  let s' = with_buf s i (record (s.buf i) { refcnt = (s.buf i).refcnt - 1 })
  if (s.buf i).refcnt - 1 == 0 then some (record s' { order = i ∷ unlink i s.order }) else some s'

unfoldable pub bpin : ℕ → Bcache → Bcache
bpin i s = with_buf s i (record (s.buf i) { refcnt = suc (s.buf i).refcnt })

unfoldable pub bunpin : ℕ → Bcache → Option Bcache
bunpin i s = do
  guard (ltb 0 (s.buf i).refcnt)
  some (with_buf s i (record (s.buf i) { refcnt = (s.buf i).refcnt - 1 }))
