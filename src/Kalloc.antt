-- ===== src/Kalloc.antt =====
-- kernel/kalloc.c: the pages of memory that no one uses, linked through their first bytes.
pub mod Free
pub mod Init
mod Tests
use raid_system.Prelude.{
  ℕ, zero, suc, ◌+◌, ◌-◌, ◌*◌, ◌/◌, ◌%◌, Option, some, ◌>>=◌, ◌>>◌, guard, ltb, leb, ◌==◌,
  if◌then◌else◌,
}
use raid_system.Memory.{Bytes, memset}
use raid_system.Fs.Words.{put_word, get_word}

abbrev pub pgsize : ℕ
pgsize = 4096

abbrev pub phystop : ℕ
phystop = 2147483648 + 32 * 1024 * 1024

-- PGROUNDUP
abbrev pub pg_round_up : ℕ → ℕ
pg_round_up sz = (sz + pgsize - 1) / pgsize * pgsize

-- `kmem` and the memory. A `struct run` is its address, 0 for null, and its field `next` the eight
-- bytes there.
pub record Kmem : Type 0 where
  pub freelist : ℕ
  pub memory : Bytes

-- `first` is the symbol `end`; `none` is a panic.
unfoldable pub kfree : ℕ → ℕ → Kmem → Option Kmem
kfree first pa s = do
  guard (pa % pgsize == 0)
  guard (leb first pa)
  guard (ltb pa phystop)
  some (record { freelist = pa; memory = put_word 8 pa s.freelist (memset pa 1 pgsize s.memory) })

unfoldable pub kalloc : Kmem → ℕ × Kmem
kalloc s =
    let r = s.freelist in
    if r == 0
    then (r, s)
    else (r, record { freelist = get_word 8 r s.memory; memory = memset r 5 pgsize s.memory })

-- The loop of `freerange`, `n` rounds from `p` on.
unfoldable pub free_from : ℕ → ℕ → ℕ → Kmem → Option Kmem
unfolding kfree
free_from first zero p s = some s
free_from first (suc n) p s = do s' ← kfree first p s; free_from first n (p + pgsize) s'

-- The rounds of a loop from `p` on while the page at `p` ends at `pa_end` or before
abbrev pub rounds : ℕ → ℕ → ℕ
rounds p pa_end = (pa_end - p) / pgsize

unfoldable pub freerange : ℕ → ℕ → ℕ → Kmem → Option Kmem
unfolding free_from
freerange first pa_start pa_end s =
    let p = pg_round_up pa_start in free_from first (rounds p pa_end) p s

unfoldable pub kinit : ℕ → Bytes → Option Kmem
unfolding freerange
kinit first memory = freerange first first phystop (record { freelist = 0; memory = memory })
