-- ===== src/Fs/Table/Get.antt =====
-- `iget` of kernel/fs.c keeps one entry for each inode in use.
use native.Mathlib.Decide.{ℕ_discrete}
use raid_system.Prelude.{
  ℕ, suc, ◌<◌, ◌≡◌, ◌≢◌, refl, sym, ◌∙◌, ap, subst, arith, false, Option, none, some, inl, inr, ◌⊎◌,
  update, update_self, update_ne, Option-cases,
}
use raid_system.Fs.Inode.{Inode}
use raid_system.Fs.Table.{ninode, Itable, scan, iget}
use raid_system.Fs.Table.Scan.{IsHeld, scan-Scanned}

-- An inode in use has one entry.
pub record IsUnique (t : Itable) : Type 0 where
  pub unique :
      (i j dev inum : ℕ)
      → i < ninode
      → j < ninode
      → IsHeld dev inum (t i)
      → IsHeld dev inum (t j)
      → i ≡ j

-- The entry is for the inode and has one reference more, or is a new one with one, not read from
-- the disk yet; no other entry changes.
pub record Gets (dev inum : ℕ) (t : Itable) (result : Option (ℕ × Itable)) : Type 0 where
  pub index : ℕ
  pub out : Itable
  pub returns : result ≡ some (index, out)
  pub bound : index < ninode
  pub held : IsHeld dev inum (out index)
  pub counted :
      (IsHeld dev inum (t index) × (out index ≡ record (t index) { ref = suc (t index).ref }))
      ⊎ (((j : ℕ) → j < ninode → ¬ IsHeld dev inum (t j))
          × ((t index).ref ≡ 0)
          × ((out index).ref ≡ 1)
          × ((out index).valid ≡ false))
  pub others : (j : ℕ) → j ≢ index → out j ≡ t j
  pub still_unique : IsUnique out

-- A change of one entry keeps them unique, if no other is for the same inode.
update-IsUnique :
    (t : Itable) (i : ℕ) (ip : Inode)
    → IsUnique t
    → ((j : ℕ) → j < ninode → j ≢ i → ¬ IsHeld ip.dev ip.inum (t j))
    → IsUnique (update t i ip)
update-IsUnique t i ip ok fresh = record {
  unique = λ j k dev inum hj hk held held'. elim (ℕ_discrete j i) [
    | yes e ↦ elim (ℕ_discrete k i) [
      | yes e' ↦ e ∙ sym e'
      | no ne ↦
          absurd
            (clash k hk ne dev inum (subst (λ x. IsHeld dev inum (update t i ip x)) e held) held')
    ]
    | no ne ↦ elim (ℕ_discrete k i) [
      | yes e' ↦
          absurd
            (clash j hj ne dev inum (subst (λ x. IsHeld dev inum (update t i ip x)) e' held') held)
      | no ne' ↦ ok.unique j k dev inum hj hk (old j ne dev inum held) (old k ne' dev inum held')
    ]
  ];
}
  where
    old :
        (j : ℕ) → j ≢ i → (dev inum : ℕ) → IsHeld dev inum (update t i ip j) → IsHeld dev inum (t j)
    old j ne dev inum held =
        subst (λ x. IsHeld dev inum x) (update_ne t i j ip (λ e. ne (sym e))) held

    clash :
        (k : ℕ)
        → k < ninode
        → k ≢ i
        → (dev inum : ℕ) → IsHeld dev inum (update t i ip i)
        → IsHeld dev inum (update t i ip k)
        → ⊥
    clash k hk ne dev inum held held' =
        let new : IsHeld dev inum ip = subst (λ x. IsHeld dev inum x) (update_self t i ip) held in
        let other = old k ne dev inum held' in
        fresh k hk ne (other.0, other.1 ∙ sym new.1, other.2 ∙ sym new.2)

-- `iget`, where no inode in use has two entries and an entry is not in use: it returns the entry
-- of the inode with one reference more, or, if the inode has none, an unused entry for it with
-- one reference, to be read from the disk; no other entry changes, and still no inode in use has
-- two.
pub iget-Gets :
    (dev inum free : ℕ) (t : Itable)
    → IsUnique t
    → free < ninode
    → (t free).ref ≡ 0
    → Gets dev inum t (iget dev inum t)
unfolding iget
iget-Gets dev inum free t ok h unused = elim (scan-Scanned dev inum t ninode 0 none) [
  | inl (i, found, hi, held) ↦
      let ip = record (t i) { ref = suc (t i).ref } in
      record {
        index = i;
        out = update t i ip;
        returns = rw (found, iget) refl;
        bound = hi;
        held = rw (update_self t i ip) (omega arith, held.1, held.2);
        counted = inl (held, update_self t i ip);
        others = λ j ne. update_ne t i j ip (λ e. ne (sym e));
        still_unique = update-IsUnique t i ip ok (λ j hj ne other.
            ne (ok.unique j i dev inum hj hi (other.0, other.1 ∙ held.1, other.2 ∙ held.2) held));
      }
  | inr (missing, other, r) ↦ elim (Option-cases (scan dev inum t ninode 0 none).1) [
    | inl nothing ↦ absurd ((r.all_used nothing).1 free (omega arith) h unused)
    | inr (i, e) ↦
        let ip = record (t i) { dev = dev; inum = inum; ref = 1; valid = false } in
        elim (r.unused i e) [
          | inl no_way ↦ absurd (ground arith)
          | inr (hi, z) ↦ record {
            index = i;
            out = update t i ip;
            returns = rw (missing, iget) (rw e refl);
            bound = hi;
            held = rw (update_self t i ip) (omega arith, refl, refl);
            counted = inr (
              λ j hj. other j (omega arith) hj,
              z,
              ap (λ (x : Inode). x.ref) (update_self t i ip),
              ap (λ (x : Inode). x.valid) (update_self t i ip),
            );
            others = λ j ne. update_ne t i j ip (λ e. ne (sym e));
            still_unique = update-IsUnique t i ip ok (λ j hj ne. other j (omega arith) hj);
          }
        ]
  ]
]
