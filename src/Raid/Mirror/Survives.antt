-- ===== src/Raid/Mirror/Survives.antt =====
-- RAID 1 after the failure of one disk: what can still be read, and what cannot be written.
use native.Mathlib.Decide.{ℕ_discrete}
use raid_system.Prelude.{
  ℕ, ◌-◌, ◌/◌, ◌^◌, ◌<◌, ◌≡◌, ◌≢◌, ◌⊎◌, ap, ◌∙◌, sym, subst, none, arith, List, get_elem?-none,
  length, length-set, get_or-set_self, get_or-set_ne, get_elem?-eq-get_or, mod-lt_ne,
}
use raid_system.Raid.State.{
  Config, bsize, minus_one, DiskState, dead, is_dead, Raid, Array, Transfer,
}
use raid_system.Raid.Device.{at_disk, divisor_ne, update_disk}
use raid_system.Raid.Mirror.{write_raid1, write_if_alive}
use raid_system.Raid.Mirror.Volume.{
  data_at, copy_at, state_of, IsDisk, row_of, column_of, Readable, Mirrors, write_if_alive_lem,
}
use raid_system.Raid.Mirror.Failure.{marked, promoted, bared}

-- Disk `d` serves column `i`.
abbrev pub Serves : Raid → ℕ → ℕ → Type 0
Serves m i d = (d ≡ data_at m i) ⊎ (d ≡ copy_at m i)

module _ (c : Config) (v : ℕ → Transfer) (s : Array) (h : Mirrors c v s) (i : ℕ)
    (i_in : i < s.meta.num_of_disks) where
  abbrev m : Raid
  m = s.meta

  marked-states : (d : ℕ) → length (marked d m).disk_state ≡ c.disks
  marked-states d = length-set m.disk_state (d - 1) dead ∙ h.readable.layout.states

  -- The other disks are in the state that they were in.
  state_of-marked :
      (d e : ℕ) → IsDisk c d → IsDisk c e → e ≢ d → state_of (marked d m) e ≡ state_of m e
  state_of-marked d e on on' ne =
      get_or-set_ne m.disk_state (d - 1) (e - 1) dead dead (λ p. ne (omega arith))

  promoted-data : (j : ℕ) → j ≢ i → data_at (promoted i m) j ≡ data_at m j
  promoted-data j ne = get_or-set_ne m.data_disks i j (copy_at m i) 0 (λ e. ne (sym e))

  promoted_self : data_at (promoted i m) i ≡ copy_at m i
  promoted_self =
      get_or-set_self m.data_disks i (copy_at m i) 0 (rw h.readable.layout.data_size i_in)

  pub promoted-Readable : Readable c v (record s { meta = promoted i m })
  promoted-Readable = record {
    layout = record {
      some_disks = h.readable.layout.some_disks;
      states = marked-states (data_at m i);
      data_size = length-set m.data_disks i (copy_at m i) ∙ h.readable.layout.data_size;
      copy_size = length-set m.copy_disks i minus_one ∙ h.readable.layout.copy_size;
    };
    data_disk = λ j j_in. elim (ℕ_discrete j i) [
      | yes e ↦
          subst (λ k. IsDisk c (data_at (promoted i m) k)) (sym e)
            (subst (IsDisk c) (sym promoted_self) (h.copy_disk i i_in))
      | no ne ↦ subst (IsDisk c) (sym (promoted-data j ne)) (h.readable.data_disk j j_in)
    ];
    data_alive = λ j j_in. elim (ℕ_discrete j i) [
      | yes e ↦
          ap (λ k. is_dead (state_of (promoted i m) (data_at (promoted i m) k))) e
          ∙ ap (λ d. is_dead (state_of (promoted i m) d)) promoted_self
          ∙ ap is_dead (
              state_of-marked (data_at m i) (copy_at m i) (h.readable.data_disk i i_in)
                (h.copy_disk i i_in) (λ p. h.data-ne-copy i i i_in i_in (sym p)))
          ∙ h.copy_alive i i_in
      | no ne ↦
          ap (λ d. is_dead (state_of (promoted i m) d)) (promoted-data j ne)
          ∙ ap is_dead (
              state_of-marked (data_at m i) (data_at m j) (h.readable.data_disk i i_in)
                (h.readable.data_disk j j_in) (λ p. ne (h.data_inj j i j_in i_in p)))
          ∙ h.readable.data_alive j j_in
    ];
    stored_data = λ b. elim (ℕ_discrete (column_of m b) i) [
      | yes e ↦
          ap (λ k. s.disk (data_at (promoted i m) k) (row_of m b)) e
          ∙ ap (λ d. s.disk d (row_of m b)) promoted_self
          ∙ ap (λ k. s.disk (copy_at m k) (row_of m b)) (sym e)
          ∙ h.stored_copy b
      | no ne ↦
          ap (λ d. s.disk d (row_of m b)) (promoted-data (column_of m b) ne)
          ∙ h.readable.stored_data b
    ];
  }

  pub bared-Readable : Readable c v (record s { meta = bared i m })
  bared-Readable = record {
    layout = record {
      some_disks = h.readable.layout.some_disks;
      states = marked-states (copy_at m i);
      data_size = h.readable.layout.data_size;
      copy_size = length-set m.copy_disks i minus_one ∙ h.readable.layout.copy_size;
    };
    data_disk = h.readable.data_disk;
    data_alive = λ j j_in.
        ap is_dead (
          state_of-marked (copy_at m i) (data_at m j) (h.copy_disk i i_in)
            (h.readable.data_disk j j_in) (h.data-ne-copy j i j_in i_in))
        ∙ h.readable.data_alive j j_in;
    stored_data = h.readable.stored_data;
  }

  -- The column has no copy afterwards.
  pub promoted-copy : copy_at (promoted i m) i ≡ minus_one
  promoted-copy = get_or-set_self m.copy_disks i minus_one 0 (rw h.readable.layout.copy_size i_in)

  pub bared-copy : copy_at (bared i m) i ≡ minus_one
  bared-copy = get_or-set_self m.copy_disks i minus_one 0 (rw h.readable.layout.copy_size i_in)

-- There is no disk -1.
at_disk-minus_one :
    (states : List DiskState) → length states < minus_one → at_disk states minus_one ≡ none
at_disk-minus_one states h = get_elem?-none states (2 ^ 32 - 2) (omega arith)

write_if_alive-minus_one :
    (c : Config) (b : ℕ) (s : Array)
    → c.disks < minus_one
    → length s.meta.disk_state ≡ c.disks
    → write_if_alive c minus_one b s ≡ none
unfolding write_if_alive
write_if_alive-minus_one c b s few e = rw (at_disk-minus_one s.meta.disk_state (omega arith))

-- A block of a column without a copy cannot be written: index -2 of `disk_state` is read.
pub write_raid1-no_copy :
    (c : Config) (v : ℕ → Transfer) (s : Array) (blkn : ℕ)
    → Readable c v s
    → c.disks < minus_one
    → row_of s.meta blkn < c.disk_size / bsize
    → copy_at s.meta (column_of s.meta blkn) ≡ minus_one
    → write_raid1 c blkn s ≡ none
unfolding write_raid1
write_raid1-no_copy c v s blkn r few fits bare =
    let i = column_of s.meta blkn in
    let s' = record s {
      disk = update_disk s.disk (data_at s.meta i) (row_of s.meta blkn) s.user;
    } in
    let i_in : i < s.meta.num_of_disks = mod-lt_ne blkn s.meta.num_of_disks r.layout.some_disks in
    rw (
      divisor_ne s.meta.num_of_disks r.layout.some_disks,
      get_elem?-eq-get_or s.meta.data_disks i 0 (rw r.layout.data_size i_in),
      get_elem?-eq-get_or s.meta.copy_disks i 0 (rw r.layout.copy_size i_in),
      write_if_alive_lem c s (data_at s.meta i) (row_of s.meta blkn) r.layout.states
          (r.data_disk i i_in) fits (r.data_alive i i_in),
      bare,
      write_if_alive-minus_one c (row_of s.meta blkn) s' few r.layout.states,
    )
