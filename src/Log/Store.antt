-- ===== src/Log/Store.antt =====
-- The calls of kernel/bio.c that the log uses, by block number: the blocks on the disk, what the
-- buffer of each block holds, and how often it is pinned. A block that has no buffer has the
-- contents of the disk in `buffer`; the header of the log is not in here.
use raid_system.Prelude.{
  ◌>>◌, guard, ℕ, suc, ◌-◌, ◌<◌, ◌≡◌, ◌≢◌, refl, Bool, true, false, Option, some, ltb,
  if◌then◌else◌, lt→ltb,
}
pub use raid_system.Prelude.{update, update_self, update_ne}

-- 1024 bytes.
abbrev pub Contents : Type 0
Contents = ℕ → ℕ

pub record Buffers : Type 0 where
  pub buffer : ℕ → Contents
  pub disk : ℕ → Contents
  pub pins : ℕ → ℕ

abbrev pub bread : ℕ → Buffers → Contents
bread blockno b = b.buffer blockno

-- memmove to the data of a buffer
abbrev pub copy_to : ℕ → Contents → Buffers → Buffers
copy_to blockno v b = record b { buffer = update b.buffer blockno v }

abbrev pub bwrite : ℕ → Buffers → Buffers
bwrite blockno b = record b { disk = update b.disk blockno (b.buffer blockno) }

abbrev pub bpin : ℕ → Buffers → Buffers
bpin blockno b = record b { pins = update b.pins blockno (suc (b.pins blockno)) }

-- `none` where the count of references would wrap.
unfoldable pub bunpin : ℕ → Buffers → Option Buffers
bunpin blockno b = do
  guard (ltb 0 (b.pins blockno))
  some (record b { pins = update b.pins blockno (b.pins blockno - 1) })

-- After a crash the memory holds nothing: the buffers are as the disk.
abbrev pub crashed : Buffers → Buffers
crashed b = record { buffer = b.disk; disk = b.disk; pins = λ i. 0 }

-- A buffer that is pinned, or need not be, can be let go of; the other pins stay.
pub bunpin-ne :
    (recovering : Bool) (h : ℕ) (b : Buffers)
    → (recovering ≡ false → 0 < b.pins h)
    → (pins : ℕ → ℕ) × ((if recovering then some b else bunpin h b)
        ≡ some (record b { pins = pins }))
      × ((i : ℕ) → h ≢ i → pins i ≡ b.pins i)
unfolding bunpin
bunpin-ne true h b pinned = (b.pins, refl, λ i ne. refl)
bunpin-ne false h b pinned = (
  update b.pins h (b.pins h - 1),
  rw (lt→ltb 0 (b.pins h) (pinned refl)),
  λ i ne. update_ne b.pins h i _ ne,
)
