-- ===== src/Raid/Api/Capacity.antt =====
-- What `read_raid` of kernel/raid.c makes of each block number of a RAID 0 set: `max_blocks` counts
-- blocks of 512 bytes, the disk driver moves 1024.
use raid_system.Prelude.{
  ◌>>=◌, ℕ, suc, ◌+◌, ◌*◌, ◌/◌, ◌%◌, ◌^◌, ◌<◌, ◌≡◌, ◌≢◌, refl, ◌∙◌, ap, ap₂, arith, false, none,
  some, length, get_or, ltb, if◌then◌else◌, lt→ltb, le→ltb, ==_ne, pos,
}
use native.Mathlib.Decide.{dec_lt}
use raid_system.Raid.State.{Config, bsize, dead, is_dead, raid0, Raid, success, failure}
use raid_system.Raid.System.{Page, System, attach, detach, initialized}
use raid_system.Raid.Striped.{read_raid0}
use raid_system.Raid.Striped.Laws.{IsStriped, striped_volume, read_raid0_lem}
use raid_system.Raid.Control.{init_switch}
use raid_system.Raid.Control.Capacity.{initial_raid0, max_blocks-raid0, read_raid0-panic, row_out}
use raid_system.Raid.Api.{raid_read, checked_block, read_raid}

row_in : (d k a : ℕ) → 0 < d → a < d * k → a / d < k
row_in d k a one h = grind arith

module _ (c : Config) (m : Raid) (k : ℕ) (size : c.disk_size ≡ 1024 * suc k)
    (small : c.disks * (2 * k + 1) < 2 ^ 32) (one : 0 < c.disks) (p : Page) (s : System)
    (made : p.meta ≡ initial_raid0 c m) (in_memory : s.raid_metadata ≡ some p)
    (states : length m.disk_state ≡ c.disks) where
  count : p.meta.num_of_disks ≡ c.disks
  unfolding init_switch
  count = ap (λ (r : Raid). r.num_of_disks) made

  same_states : p.meta.disk_state ≡ m.disk_state
  unfolding init_switch
  same_states = ap (λ (r : Raid). r.disk_state) made

  made-IsStriped : IsStriped c p.meta
  made-IsStriped = record {
    some_disks = omega (arith, count);
    all_disks = count;
    states = ap length same_states ∙ states;
  }

  initialized-made : initialized s ≡ some p
  unfolding init_switch
  initialized-made =
      let in_use : p.meta.raid_initialized ≡ 1 = ap (λ (r : Raid). r.raid_initialized) made in
      rw in_memory
        (rw (==_ne p.meta.raid_initialized 0 (λ z. absurd (omega (arith, in_use, z)))) refl)

  is_raid0 : p.meta.type ≡ raid0
  unfolding init_switch
  is_raid0 = ap (λ (r : Raid). r.type) made

  max_blocks-made : p.meta.max_blocks ≡ c.disks * (2 * k + 1)
  max_blocks-made = ap (λ (r : Raid). r.max_blocks) made ∙ max_blocks-raid0 c m k size small one

  module _ (blkn vaddr : ℕ) (some_buffer : vaddr ≢ 0) where
    read_raid-beyond :
        ¬ (blkn < c.disks * (2 * k + 1)) → read_raid c (pos blkn) vaddr s ≡ some (failure, s)
    unfolding read_raid checked_block
    read_raid-beyond out =
        let step : checked_block c (pos blkn) vaddr s ≡ none =
          rw (initialized-made, checked_block)
            (rw (le→ltb blkn p.meta.max_blocks (omega (arith, max_blocks-made))) refl) in
        rw (step, read_raid) refl

    read_raid-passes :
        blkn < c.disks * (2 * k + 1)
        → read_raid c (pos blkn) vaddr s
          ≡ (do (r, a) ← read_raid0 c blkn (attach s p); some (r, detach s a))
    unfolding read_raid checked_block raid_read
    read_raid-passes inside =
        let step : checked_block c (pos blkn) vaddr s ≡ some (p, blkn) =
          rw (initialized-made, checked_block)
            (rw
              (
                lt→ltb blkn p.meta.max_blocks (omega (arith, max_blocks-made)),
                ==_ne vaddr 0 some_buffer,
              )
              refl) in
        rw (step, read_raid) (rw (is_raid0, raid_read) refl)

    -- On disks of `k + 1` blocks of 1024 bytes, `read_raid` of a RAID 0 set, whose metadata is in
    -- memory and is any metadata with what `init_raid` sets for RAID 0, and with a buffer that is
    -- not null, of a block number whose disk is not dead: below `disks * k` it gives the block of
    -- the volume; from there on and below `max_blocks`, which is `disks * (2 * k + 1)`, it ends
    -- in a panic of the disk driver; from `max_blocks` on it returns -1 and changes nothing. The
    -- states of all disks are there, there is a disk, and `max_blocks` fits in 32 bits.
    pub read_raid-init_switch :
        is_dead (get_or m.disk_state (blkn % c.disks) dead) ≡ false
        → (p.meta.max_blocks ≡ c.disks * (2 * k + 1))
          × (read_raid c (pos blkn) vaddr s ≡ (
              if ltb blkn (c.disks * k)
              then some (
                success,
                detach s (record (attach s p) { user = striped_volume (attach s p) blkn }),
              )
              else if ltb blkn (c.disks * (2 * k + 1))
              then none
              else some (failure, s)))
    read_raid-init_switch live = (
      max_blocks-made,
      elim (dec_lt blkn (c.disks * k)) [
        | yes l ↦
            let inside : blkn < c.disks * (2 * k + 1) = below_both l in
            rw (lt→ltb blkn (c.disks * k) l) (
              read_raid-passes inside
              ∙ rw (read_raid0_lem c (attach s p) made-IsStriped blkn (fits l)) (rw alive refl))
        | no h ↦ elim (dec_lt blkn (c.disks * (2 * k + 1))) [
          | yes l ↦
              rw (le→ltb blkn (c.disks * k) (omega arith), lt→ltb blkn (c.disks * (2 * k + 1)) l)
                (read_raid-passes l
                  ∙ rw
                      (read_raid0-panic c (attach s p) blkn made-IsStriped alive (
                        omega (
                          arith,
                          row_out c.disks k blkn one (omega arith),
                          ap (λ n. blkn / n) count,
                        )))
                      refl)
          | no h' ↦
              rw
                (
                  le→ltb blkn (c.disks * k) (omega arith),
                  le→ltb blkn (c.disks * (2 * k + 1)) (omega arith),
                )
                (read_raid-beyond h')
        ]
      ],
    )
      where
        alive : is_dead (get_or p.meta.disk_state (blkn % p.meta.num_of_disks) dead) ≡ false
        alive = ap₂ (λ xs n. is_dead (get_or xs (blkn % n) dead)) same_states count ∙ live

        below_both : blkn < c.disks * k → blkn < c.disks * (2 * k + 1)
        below_both l = grind arith

        fits : blkn < c.disks * k → suc (blkn / p.meta.num_of_disks) < c.disk_size / bsize
        fits l = omega (arith, row_in c.disks k blkn one l, ap (λ n. blkn / n) count)
