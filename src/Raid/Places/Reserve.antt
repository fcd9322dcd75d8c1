-- ===== src/Raid/Places/Reserve.antt =====
-- Which copy a reserve disk replaces.
use raid_system.Prelude.{
  ℕ, zero, suc, ◌+◌, ◌-◌, ◌*◌, ◌<◌, ◌≡◌, ◌∙◌, ap, arith, none, some, List, length, get_elem?-none,
  get_elem?-eq-get_or, set, ==_ne, ◌==◌, if◌then◌else◌,
}
use raid_system.Raid.State.{Config, Raid}
use raid_system.Raid.Device.{◌>>=◌}
use raid_system.Raid.Places.{store_at, use_reserve}

store_at-some : (xs : List ℕ) (i v : ℕ) → i < length xs → store_at xs i v ≡ some (set xs i v)
unfolding store_at
store_at-some xs i v h = rw (get_elem?-eq-get_or xs i 0 h)

store_at-none : (xs : List ℕ) (i v : ℕ) → ¬ (i < length xs) → store_at xs i v ≡ none
unfolding store_at
store_at-none xs i v h = rw (get_elem?-none xs i h)

use_reserve-copy :
    (c : Config) (m : Raid) (d i : ℕ)
    → m.num_of_disks < d
    → c.disks - d ≡ i
    → use_reserve c d m ≡ (do
      copy_disks ← store_at m.copy_disks i m.reserve_disk
      some (record m { copy_disks = copy_disks; reserve_disk = 0 }))
unfolding use_reserve
use_reserve-copy c m d i h e = ground (arith, e)

-- In a set of `2 * n + 1` disks with `n` columns, `use_reserve` for disk `n + 1 + j` enters the
-- reserve for the copy of column `n - j`: out of the array's bounds where `j` is 0.
pub use_reserve-mirrored :
    (c : Config) (m : Raid) (n j : ℕ)
    → c.disks ≡ 2 * n + 1
    → m.num_of_disks ≡ n
    → length m.copy_disks ≡ n
    → j < n
    → use_reserve c (n + 1 + j) m ≡ (
        if j == 0
        then none
        else some
            (record m { copy_disks = set m.copy_disks (n - j) m.reserve_disk; reserve_disk = 0 }))
use_reserve-mirrored c m n zero odd count size j_in =
    use_reserve-copy c m (n + 1 + 0) n (omega arith) (omega arith)
    ∙ ap (λ o. (do copy_disks ← o; some (record m { copy_disks = copy_disks; reserve_disk = 0 })))
        (store_at-none m.copy_disks n m.reserve_disk (omega arith))
use_reserve-mirrored c m n (suc j) odd count size j_in = rw (==_ne (suc j) 0 (omega arith)) (
    use_reserve-copy c m (n + 1 + suc j) (n - suc j) (omega arith) (omega arith)
    ∙ ap (λ o. (do copy_disks ← o; some (record m { copy_disks = copy_disks; reserve_disk = 0 })))
        (store_at-some m.copy_disks (n - suc j) m.reserve_disk (omega arith)))
