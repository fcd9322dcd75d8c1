-- ===== src/Raid/Parity/Failure.antt =====
-- `disk_fail_raid` on a RAID 4 array.
use native.Mathlib.Decide.{ℕ_discrete}
use raid_system.Prelude.{
  ℕ, suc, ◌+◌, ◌-◌, ◌%◌, ◌^◌, ◌<◌, ◌≡◌, ◌≢◌, sym, ◌∙◌, ap, arith, true, some, length, set,
  get_elem?, get_or, ==_eq, ==_ne, ◌==◌, if◌then◌else◌, get_elem?-eq-get_or, get_or-set_self,
  get_or-set_ne, length-set,
}
use raid_system.Raid.State.{Config, dead, is_dead, Raid, Array}
use raid_system.Raid.Places.{store_at, fail_disk}
use raid_system.Raid.Parity.Cache.{state_at, IsAlive}
use raid_system.Raid.Parity.Volume.{Volume, IsRaid4, Holds}

-- The metadata after disk `i + 1` died.
abbrev pub failed : ℕ → Raid → Raid
failed i m = record m {
  disk_state = set m.disk_state i dead;
  num_dead_disks = (m.num_dead_disks + 1) % 2 ^ 32;
}

module _ (c : Config) (m : Raid) (l : IsRaid4 c m) (i : ℕ) (i_in : i < c.disks) where
  in_states : i < length m.disk_state
  in_states = rw l.wired.states i_in

  pub fail_disk-raid4 : fail_disk c (suc i) m ≡ some (failed i m)
  unfolding fail_disk store_at
  fail_disk-raid4 =
      let index : suc i - 1 ≡ i = omega arith in
      rw (index, get_elem?-eq-get_or m.disk_state i dead in_states) (simp l.is_raid4)

  state_at-failed : (j : ℕ) → j ≢ i → state_at (failed i m) j ≡ state_at m j
  state_at-failed j ne = get_or-set_ne m.disk_state i j dead dead (λ e. ne (sym e))

  states_after :
      (j : ℕ)
      → j < c.disks
      → get_elem? (failed i m).disk_state j ≡ some (if j == i then dead else state_at m j)
  states_after j j_in =
      get_elem?-eq-get_or (failed i m).disk_state j dead
        (omega (arith, length-set m.disk_state i dead, l.wired.states))
      ∙ ap some (elim (ℕ_discrete j i) [
        | yes e ↦ rw (==_eq j i e) (
            ap (λ k. get_or (failed i m).disk_state k dead) e
            ∙ get_or-set_self m.disk_state i dead dead in_states)
        | no ne ↦ rw (==_ne j i ne) (state_at-failed j ne)
      ])

  -- A disk that is alive afterwards was alive before.
  IsAlive-failed : (j : ℕ) → IsAlive (failed i m) j → IsAlive m j
  IsAlive-failed j alive = elim (ℕ_discrete j i) [
    | yes e ↦ absurd (
        cc (
          alive,
          ap (λ k. is_dead (state_at (failed i m) k)) e,
          ap is_dead (get_or-set_self m.disk_state i dead dead in_states),
        ))
    | no ne ↦ ap is_dead (sym (state_at-failed j ne)) ∙ alive
  ]

  module _ (all-IsAlive : (j : ℕ) → j < c.disks → IsAlive m j) where
    only_failed : (j : ℕ) → j < c.disks → is_dead (state_at (failed i m) j) ≡ true → j ≡ i
    only_failed j j_in gone = elim (ℕ_discrete j i) [
      | yes e ↦ e
      | no ne ↦ absurd (cc (all-IsAlive j j_in, gone, ap is_dead (state_at-failed j ne)))
    ]

    failed-IsRaid4 : m.num_dead_disks ≡ 0 → m.max_dead_disks ≡ 2 → IsRaid4 c (failed i m)
    failed-IsRaid4 none_dead two = record {
      wired = record { states = rw length-set l.wired.states; pointers = l.wired.pointers };
      is_raid4 = l.is_raid4;
      some_disks = l.some_disks;
      all_disks = l.all_disks;
      parity_last = l.parity_last;
      in_service = omega arith;
      one_dead = λ j k p q j_in k_in. only_failed j j_in p ∙ sym (only_failed k k_in q);
    }

-- When every disk of a RAID 4 array that holds a volume is alive, the count of dead disks is 0,
-- two are the limit of that count, and one disk is reported dead, the call's change of the metadata
-- succeeds. That disk, and no other, is then marked as dead, and counted; and the array holds the
-- volume that it held.
pub fail_disk-Holds :
    (c : Config) (v : Volume) (s : Array) (i : ℕ)
    → Holds c v s
    → i < c.disks
    → ((j : ℕ) → j < c.disks → IsAlive s.meta j)
    → s.meta.num_dead_disks ≡ 0
    → s.meta.max_dead_disks ≡ 2
    → (m : Raid) × (fail_disk c (suc i) s.meta ≡ some m)
      × ((j : ℕ)
          → j < c.disks
          → get_elem? m.disk_state j ≡ some (if j == i then dead else state_at s.meta j))
      × (m.num_dead_disks ≡ 1)
      × Holds c v (record s { meta = m })
fail_disk-Holds c v s i h i_in all none_dead two = (
  failed i s.meta,
  fail_disk-raid4 c s.meta h.layout i i_in,
  states_after c s.meta h.layout i i_in,
  omega (arith, none_dead),
  record {
    layout = failed-IsRaid4 c s.meta h.layout i i_in all none_dead two;
    room = h.room;
    sums = h.sums;
    stored = λ j b j_in alive. h.stored j b j_in (IsAlive-failed c s.meta h.layout i i_in j alive);
    parity_cached = h.parity_cached;
    slots_cached = λ on j j_in alive.
        h.slots_cached on j j_in (IsAlive-failed c s.meta h.layout i i_in j alive);
  },
)
