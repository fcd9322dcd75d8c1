-- ===== src/Raid/System/Laws.antt =====
-- What `writeback` and the last loop of `init_raid` leave on the disks, and what `fetch` finds.
use native.Mathlib.Decide.{ℕ_discrete}
use raid_system.Prelude.{
  ℕ, zero, suc, ◌+◌, ◌/◌, ◌≤◌, ◌<◌, ◌≡◌, ◌≢◌, inl, inr, refl, ◌∙◌, ap, subst, arith, Bool, true,
  false, Option, some, length, get_or, get_elem?-eq-get_or, Bool-cases, ==_eq, ==_ne, ◌==◌,
  if◌then◌else◌,
}
use raid_system.Raid.State.{Config, bsize, dead, is_dead, Block, zero_block}
use raid_system.Raid.Device.{update_disk}
use raid_system.Raid.System.{Page, System, set_page, write_meta, writeback_from, writeback}

module _ (c : Config) (p : Page) (has_slot : 0 < length p.slots)
    (has_block : 0 < c.disk_size / bsize) where
  abbrev behind : Block
  behind = get_or p.slots 0 zero_block

  -- The system after the metadata was written to disk `d`.
  abbrev pub saved : ℕ → System → System
  saved d s = record s {
    superblock = λ e. if e == d then p.meta else s.superblock e;
    disk = update_disk s.disk d 0 (record { first = (s.disk d 0).first; second = behind });
  }

  pub write_meta_lem :
      (d : ℕ) (s : System) → 0 < d → d ≤ c.disks → write_meta c d p s ≡ some (saved d s)
  unfolding write_meta
  write_meta_lem d s positive h = ground (arith, get_elem?-eq-get_or p.slots 0 zero_block has_slot)

  -- Some of the disks from `lo + 1` up to `hi` got the metadata, and all else is as it was.
  pub record Saves (lo hi : ℕ) (skip : ℕ → Bool) (s : System) (result : Option System)
      : Type 0 where
    pub after : System
    pub returns : result ≡ some after
    pub inside : (j : ℕ) → lo ≤ j → j < hi → skip j ≡ false → after.superblock (suc j) ≡ p.meta
    pub outside : (d : ℕ) → d ≤ lo → after.superblock d ≡ s.superblock d
    pub skipped : (j : ℕ) → skip j ≡ true → after.superblock (suc j) ≡ s.superblock (suc j)
    pub same_page : after.raid_metadata ≡ s.raid_metadata
    pub same_first : (d b : ℕ) → (after.disk d b).first ≡ (s.disk d b).first
    pub same_pages : after.free_pages ≡ s.free_pages

  same_first-saved :
      (e : ℕ) (s : System) (d b : ℕ) → ((saved e s).disk d b).first ≡ (s.disk d b).first
  same_first-saved e s d b = ground arith

  pub Saves-step :
      (lo hi : ℕ) (skip : ℕ → Bool) (s : System) {result : Option System}
      → skip lo ≡ false
      → Saves (suc lo) hi skip (saved (suc lo) s) result
      → Saves lo hi skip s result
  Saves-step lo hi skip s keep rest = record {
    after = rest.after;
    returns = rest.returns;
    inside = λ j q r live. elim (ℕ_discrete lo j) [
      | yes e ↦
          subst (λ k. rest.after.superblock (suc k) ≡ p.meta) e
            (rest.outside (suc lo) (omega arith) ∙ (rw (==_eq (suc lo) (suc lo) refl)))
      | no ne ↦ rest.inside j (omega arith) r live
    ];
    outside = λ d q. rest.outside d (omega arith) ∙ (rw (==_ne d (suc lo) (omega arith)));
    skipped = λ j gone. rest.skipped j gone ∙ (rw (==_ne (suc j) (suc lo) (differ j gone)));
    same_page = rest.same_page;
    same_first = λ d b. rest.same_first d b ∙ same_first-saved (suc lo) s d b;
    same_pages = rest.same_pages;
  }
    where
      differ : (j : ℕ) → skip j ≡ true → suc j ≢ suc lo
      differ j gone e = let same : j ≡ lo = omega arith in absurd (cc (gone, keep, ap skip same))

  Saves-skip :
      (lo hi : ℕ) (skip : ℕ → Bool) (s : System) {result : Option System}
      → skip lo ≡ true
      → Saves (suc lo) hi skip s result
      → Saves lo hi skip s result
  Saves-skip lo hi skip s gone rest = record {
    after = rest.after;
    returns = rest.returns;
    inside = λ j q r live. elim (ℕ_discrete lo j) [
      | yes e ↦ absurd (cc (gone, live, ap skip e))
      | no ne ↦ rest.inside j (omega arith) r live
    ];
    outside = λ d q. rest.outside d (omega arith);
    skipped = rest.skipped;
    same_page = rest.same_page;
    same_first = rest.same_first;
    same_pages = rest.same_pages;
  }

  pub Saves-none :
      (lo hi : ℕ) (skip : ℕ → Bool) (s : System) → hi ≤ lo → Saves lo hi skip s (some s)
  Saves-none lo hi skip s h = record {
    after = s;
    returns = refl;
    inside = λ j q r. absurd (omega arith);
    outside = λ d q. refl;
    skipped = λ j gone. refl;
    same_page = refl;
    same_first = λ d b. refl;
    same_pages = refl;
  }

  abbrev pub dead_in : ℕ → Bool
  dead_in i = is_dead (get_or p.meta.disk_state i dead)

  writeback_from-Saves :
      (n lo hi : ℕ) (s : System)
      → lo + n ≡ hi
      → hi ≤ c.disks
      → length p.meta.disk_state ≡ c.disks
      → Saves lo hi dead_in s (writeback_from c n lo p s)
  unfolding writeback_from
  writeback_from-Saves zero lo hi s e h states = Saves-none lo hi dead_in s (omega arith)
  writeback_from-Saves (suc n) lo hi s e h states =
      let state = get_elem?-eq-get_or p.meta.disk_state lo dead (omega arith) in
      elim (Bool-cases (dead_in lo)) [
        | inl gone ↦
            rw (state, gone)
              (Saves-skip lo hi dead_in s gone
                (writeback_from-Saves n (suc lo) hi s (omega arith) h states))
        | inr live ↦
            rw (state, live, write_meta_lem (suc lo) s (omega arith) (omega arith))
              (Saves-step lo hi dead_in s live
                (writeback_from-Saves n (suc lo) hi (saved (suc lo) s) (omega arith) h states))
      ]

  -- `writeback` succeeds: every disk that is not dead holds the metadata of the page afterwards,
  -- and the dead ones what they held before. The data on the disks is as it was.
  pub writeback-Saves :
      (s : System)
      → length p.meta.disk_state ≡ c.disks
      → Saves 0 c.disks dead_in (set_page s p) (writeback c p s)
  unfolding writeback
  writeback-Saves s states =
      writeback_from-Saves c.disks 0 c.disks (set_page s p) (omega arith) (omega arith) states
