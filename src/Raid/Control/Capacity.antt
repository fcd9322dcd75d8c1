-- ===== src/Raid/Control/Capacity.antt =====
-- `max_blocks` of `init_raid` against what the disks hold: it counts blocks of 512 bytes, the
-- disk driver moves 1024.
use native.Mathlib.Nat.{mod-eq_of_lt}
use raid_system.Prelude.{
  ℕ, suc, ◌+◌, ◌*◌, ◌/◌, ◌%◌, ◌^◌, ◌≤◌, ◌<◌, ◌≡◌, ◌∙◌, ap, arith, false, none, get_or,
  get_elem?-eq-get_or, mod-lt_ne,
}
use raid_system.Raid.State.{Config, bsize, dead, is_dead, raid0, Raid, Array}
use raid_system.Raid.Striped.{read_raid0}
use raid_system.Raid.Striped.Laws.{IsStriped}
use raid_system.Raid.Control.{blocks_per_disk, init_common, init_switch}

-- The metadata that `init_raid` makes for RAID 0.
abbrev pub initial_raid0 : Config → Raid → Raid
initial_raid0 c m = init_switch c raid0 (init_common c raid0 m)

blocks_per_disk_lem :
    (c : Config) (k : ℕ)
    → c.disk_size ≡ 1024 * suc k
    → 2 * k + 1 < 2 ^ 32
    → blocks_per_disk c ≡ 2 * k + 1
blocks_per_disk_lem c k e small = omega arith

factor_lt : (d x y : ℕ) → 0 < d → d * x < y → x < y
factor_lt d x y one h = grind arith

pub max_blocks-raid0 :
    (c : Config) (m : Raid) (k : ℕ)
    → c.disk_size ≡ 1024 * suc k
    → c.disks * (2 * k + 1) < 2 ^ 32
    → 0 < c.disks
    → (initial_raid0 c m).max_blocks ≡ c.disks * (2 * k + 1)
unfolding init_switch
max_blocks-raid0 c m k e small one =
    ap (λ x. c.disks * x % 2 ^ 32)
      (blocks_per_disk_lem c k e (factor_lt c.disks (2 * k + 1) (2 ^ 32) one small))
    ∙ mod-eq_of_lt small

-- `read_raid0` of a block in a row that no disk has ends in the panic of the disk driver.
pub read_raid0-panic :
    (c : Config) (s : Array) (blkn : ℕ)
    → IsStriped c s.meta
    → is_dead (get_or s.meta.disk_state (blkn % s.meta.num_of_disks) dead) ≡ false
    → c.disk_size / bsize ≤ suc (blkn / s.meta.num_of_disks)
    → read_raid0 c blkn s ≡ none
unfolding read_raid0
read_raid0-panic c s blkn l live out = ground (
  arith,
  l.some_disks,
  get_elem?-eq-get_or s.meta.disk_state (blkn % s.meta.num_of_disks) dead
      (omega (arith, l.states, l.all_disks, mod-lt_ne blkn s.meta.num_of_disks l.some_disks)),
)

pub row_out : (d k a : ℕ) → 0 < d → d * k ≤ a → k ≤ a / d
row_out d k a one h = grind arith
