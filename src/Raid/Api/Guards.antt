-- ===== src/Raid/Api/Guards.antt =====
-- The calls that `read_raid` and `write_raid` turn away, and those that they pass on.
use raid_system.Prelude.{
  ℕ, ◌≤◌, ◌≡◌, ◌⊎◌, inl, inr, refl, arith, none, some, ℤ, pos, negsuc, Option-cases,
}
use raid_system.Raid.State.{Config, failure}
use raid_system.Raid.System.{Page, System, initialized}
use raid_system.Raid.Api.{checked_block, read_raid, write_raid}

-- The set has no such block.
abbrev pub IsOutside : Page → ℤ → Type 0
IsOutside p (negsuc n) = Unit {0}
IsOutside p (pos n) = p.meta.max_blocks ≤ n

checked_block-none :
    (c : Config) (z : ℤ) (vaddr : ℕ) (s : System)
    → ((p : Page) → initialized s ≡ some p → IsOutside p z ⊎ (vaddr ≡ 0))
    → checked_block c z vaddr s ≡ none
unfolding checked_block
checked_block-none c (negsuc n) vaddr s h = refl
checked_block-none c (pos n) vaddr s h = elim (Option-cases (initialized s)) [
  | inl e ↦ rw e
  | inr (p, e) ↦ rw e (ground (arith, h p e))
]

-- A call with no set in use, with a block number that is negative or not below `max_blocks`, or
-- with a null buffer returns -1 and changes nothing.
pub block_calls-failure :
    (c : Config) (z : ℤ) (vaddr : ℕ) (s : System)
    → ((p : Page) → initialized s ≡ some p → IsOutside p z ⊎ (vaddr ≡ 0))
    → (read_raid c z vaddr s ≡ some (failure, s)) × (write_raid c z vaddr s ≡ some (failure, s))
unfolding read_raid write_raid
block_calls-failure c z vaddr s h =
    let e = checked_block-none c z vaddr s h in (rw (e, read_raid), rw (e, write_raid))
