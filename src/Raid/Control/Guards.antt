-- ===== src/Raid/Control/Guards.antt =====
-- The calls that `disk_fail_raid` and `disk_repaired_raid` turn away or have nothing to do for.
use raid_system.Prelude.{
  ℕ, ◌-◌, ◌≤◌, ◌<◌, ◌≡◌, ◌⊎◌, inl, inr, refl, arith, none, some, get_elem?, ℤ, pos, negsuc,
  if◌then◌else◌, Option-cases,
}
use raid_system.Raid.State.{Config, DiskState, is_dead, success, failure}
use raid_system.Raid.System.{Page, System, initialized}
use raid_system.Raid.Control.{checked_disk, disk_fail_raid, disk_repaired_raid}

-- There is no such disk.
abbrev pub IsNoDisk : Config → ℤ → Type 0
IsNoDisk c (negsuc n) = Unit {0}
IsNoDisk c (pos d) = (d ≡ 0) ⊎ (c.disks < d)

checked_disk-none :
    (c : Config) (z : ℤ) (s : System)
    → (initialized s ≡ none) ⊎ IsNoDisk c z
    → checked_disk c z s ≡ none
checked_disk-none c (negsuc n) s h = refl
checked_disk-none c (pos d) s (inl e) = rw e
checked_disk-none c (pos d) s (inr h) = elim (Option-cases (initialized s)) [
  | inl e ↦ rw e
  | inr (p, e) ↦ rw e (ground arith)
]

checked_disk-some :
    (c : Config) (d : ℕ) (s : System) (p : Page)
    → initialized s ≡ some p
    → 0 < d
    → d ≤ c.disks
    → checked_disk c (pos d) s ≡ some (p, d)
checked_disk-some c d s p e low high = rw e (ground arith)

-- Without a set in use, and for a disk that does not exist, both calls return -1 and change
-- nothing.
pub disk_calls-failure :
    (c : Config) (z : ℤ) (s : System)
    → (initialized s ≡ none) ⊎ IsNoDisk c z
    → (disk_fail_raid c z s ≡ some (failure, s)) × (disk_repaired_raid c z s ≡ some (failure, s))
unfolding disk_fail_raid disk_repaired_raid
disk_calls-failure c z s h =
    let e = checked_disk-none c z s h in (ground (arith, e), ground (arith, e))

-- For a disk of a set in use exactly one of the two calls has something to do: the other returns
-- 0 and changes nothing.
pub disk_calls-idle :
    (c : Config) (d : ℕ) (s : System) (p : Page) (state : DiskState)
    → initialized s ≡ some p
    → 0 < d
    → d ≤ c.disks
    → get_elem? p.meta.disk_state (d - 1) ≡ some state
    → (if is_dead state then disk_fail_raid c (pos d) s else disk_repaired_raid c (pos d) s)
      ≡ some (success, s)
unfolding disk_fail_raid disk_repaired_raid
disk_calls-idle c d s p state e low high at =
    let f = checked_disk-some c d s p e low high in ground (arith, f, at)
