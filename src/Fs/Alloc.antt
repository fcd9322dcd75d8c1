-- ===== src/Fs/Alloc.antt =====
-- The bitmap of free blocks of kernel/fs.c: `bzero`, `balloc` and `bfree`.
pub mod Bits
pub mod Search
pub mod Laws
use raid_system.Prelude.{
  ℕ, zero, suc, ◌+◌, ◌-◌, ◌/◌, ◌%◌, ◌^◌, Bool, true, false, Option, none, some, ◌>>=◌, ltb, ◌==◌,
  if◌then◌else◌, update,
}
use raid_system.Log.{Log}
use raid_system.Log.Store.{Contents}
use raid_system.Fs.{Superblock, bpb, bblock, block_of, write_logged}

abbrev pub zero_contents : Contents
zero_contents i = 0

unfoldable pub bzero : ℕ → Log → Option Log
unfolding write_logged
bzero bno s = write_logged bno zero_contents s

-- (data[bi/8] & m) == 0 for m = 1 << (bi % 8)
abbrev pub is_free : Contents → ℕ → Bool
is_free c bi = c (bi / 8) / 2 ^ (bi % 8) % 2 == 0

-- data[bi/8] |= m where the bit is clear
abbrev pub mark : Contents → ℕ → Contents
mark c bi = update c (bi / 8) (c (bi / 8) + 2 ^ (bi % 8))

-- data[bi/8] &= ~m where the bit is set
abbrev pub unmark : Contents → ℕ → Contents
unmark c bi = update c (bi / 8) (c (bi / 8) - 2 ^ (bi % 8))

-- The inner loop: the first free bit of `n` from `bi` on.
unfoldable pub find_free : Contents → ℕ → ℕ → Option ℕ
find_free c zero bi = none
find_free c (suc n) bi = elim (is_free c bi) [ true ↦ some bi | false ↦ find_free c n (suc bi) ]

-- `bi < BPB && b + bi < sb.size`
abbrev pub bits_in : Superblock → ℕ → ℕ
bits_in sb b = if ltb bpb (sb.size - b) then bpb else sb.size - b

-- The outer loop: `n` blocks of the bitmap from that of `b` on.
unfoldable pub balloc_from : Superblock → ℕ → ℕ → Log → Option (ℕ × Log)
unfolding find_free bzero write_logged
balloc_from sb zero b s = some (0, s)
balloc_from sb (suc n) b s = elim (find_free (block_of (bblock sb b) s) (bits_in sb b) 0) [
  | some bi ↦ (do
    s₁ ← write_logged (bblock sb b) (mark (block_of (bblock sb b) s) bi) s
    s₂ ← bzero (b + bi) s₁
    some (b + bi, s₂))
  | none ↦ balloc_from sb n (b + bpb) s
]

-- 0 if there is no free block.
unfoldable pub balloc : Superblock → Log → Option (ℕ × Log)
unfolding balloc_from
balloc sb s = balloc_from sb ((sb.size + (bpb - 1)) / bpb) 0 s

unfoldable pub bfree : Superblock → ℕ → Log → Option Log
unfolding write_logged
bfree sb b s =
    if is_free (block_of (bblock sb b) s) (b % bpb)
    then none
    else write_logged (bblock sb b) (unmark (block_of (bblock sb b) s) (b % bpb)) s
