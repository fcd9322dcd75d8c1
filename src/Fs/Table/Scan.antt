-- ===== src/Fs/Table/Scan.antt =====
-- What the loop of `iget` of kernel/fs.c finds.
use native.Mathlib.Decide.{ℕ_discrete}
use raid_system.Prelude.{
  ℕ, zero, suc, ◌+◌, ◌≤◌, ◌<◌, ◌≡◌, ◌≢◌, refl, sym, ◌∙◌, subst, arith, true, Option, none, some,
  inl, inr, ◌⊎◌, Bool-cases, ==_eq, ==_ne, lt→ltb,
}
use mathlib.Core.Bool.{false≢true}
use raid_system.Fs.Inode.{Inode}
use raid_system.Fs.Table.{Itable, is_held, remember, scan}

-- The entry is in use for that inode.
abbrev pub IsHeld : ℕ → ℕ → Inode → Type 0
IsHeld dev inum ip = (0 < ip.ref) × (ip.dev ≡ dev) × (ip.inum ≡ inum)

IsHeld-is_held : (dev inum : ℕ) (ip : Inode) → IsHeld dev inum ip → is_held dev inum ip ≡ true
IsHeld-is_held dev inum ip (r, d, n) =
    rw (lt→ltb 0 ip.ref r, ==_eq ip.dev dev d, ==_eq ip.inum inum n) refl

is_held-IsHeld : (dev inum : ℕ) (ip : Inode) → is_held dev inum ip ≡ true → IsHeld dev inum ip
is_held-IsHeld dev inum ip e = (ground arith, ground arith, ground arith)

-- The loop remembers an entry that no one uses, if there is one.
pub record Remembers (t : Itable) (i n : ℕ) (empty e : Option ℕ) : Type 0 where
  pub unused : (k : ℕ) → e ≡ some k → (empty ≡ some k) ⊎ ((k < i + n) × ((t k).ref ≡ 0))
  pub all_used : e ≡ none → (empty ≡ none) × ((j : ℕ) → i ≤ j → j < i + n → (t j).ref ≢ 0)

-- The loop ends at an entry in use for the inode, or there is none.
abbrev pub Scanned : ℕ → ℕ → Itable → ℕ → ℕ → Option ℕ → Option ℕ × Option ℕ → Type 0
Scanned dev inum t i n empty r =
    ((k : ℕ) × (r.0 ≡ some k) × (k < i + n) × IsHeld dev inum (t k))
    ⊎ ((r.0 ≡ none)
        × ((j : ℕ) → i ≤ j → j < i + n → ¬ IsHeld dev inum (t j))
        × Remembers t i n empty r.1)

some-ne-none : (m : ℕ) → ¬ (some m ≡ none)
some-ne-none m e = ground arith

some_inj : (m k : ℕ) → some m ≡ some k → m ≡ k
some_inj m k e = ground arith

remember-Remembers :
    (t : Itable) (i n : ℕ) (empty e : Option ℕ)
    → Remembers t (suc i) n (remember empty i (t i)) e
    → Remembers t i (suc n) empty e
remember-Remembers t i n (some m) e r = record {
  unused = λ k found. elim (r.unused k found) [
    | inl same ↦ inl same
    | inr (h, z) ↦ inr (omega arith, z)
  ];
  all_used = λ missing. absurd (some-ne-none m (r.all_used missing).0);
}
remember-Remembers t i n none e r = elim (ℕ_discrete (t i).ref 0) [
  | yes z ↦
      let r' : Remembers t (suc i) n (some i) e = rw (==_eq (t i).ref 0 z) at r in
      record {
        unused = λ k found. elim (r'.unused k found) [
          | inl same ↦
              inr
                (omega (arith, some_inj i k same), subst (λ x. (t x).ref ≡ 0) (some_inj i k same) z)
          | inr (h, z') ↦ inr (omega arith, z')
        ];
        all_used = λ missing. absurd (some-ne-none i (r'.all_used missing).0);
      }
  | no ne ↦
      let r' : Remembers t (suc i) n none e = rw (==_ne (t i).ref 0 ne) at r in
      record {
        unused = λ k found. elim (r'.unused k found) [
          | inl same ↦ inl same
          | inr (h, z') ↦ inr (omega arith, z')
        ];
        all_used = λ missing. (
          refl,
          λ j lo hi. elim (ℕ_discrete i j) [
            | yes e ↦ subst (λ x. (t x).ref ≢ 0) e ne
            | no ne' ↦ (r'.all_used missing).1 j (omega arith) (omega arith)
          ],
        );
      }
]

pub scan-Scanned :
    (dev inum : ℕ) (t : Itable) (n i : ℕ) (empty : Option ℕ)
    → Scanned dev inum t i n empty (scan dev inum t n i empty)
unfolding scan
scan-Scanned dev inum t zero i empty = inr (
  refl,
  λ j lo hi. absurd (omega arith),
  record {
    unused = λ k found. inl found;
    all_used = λ missing. (missing, λ j lo hi. absurd (omega arith));
  },
)
scan-Scanned dev inum t (suc n) i empty = elim (Bool-cases (is_held dev inum (t i))) [
  | inl e ↦ rw (e, scan) (inl (i, refl, omega arith, is_held-IsHeld dev inum (t i) e))
  | inr e ↦
      rw (e, scan)
        (elim (scan-Scanned dev inum t n (suc i) (remember empty i (t i))) [
          | inl (k, found, h, held) ↦ inl (k, found, omega arith, held)
          | inr (missing, other, r) ↦ inr (
            missing,
            λ j lo hi held. elim (ℕ_discrete i j) [
              | yes same ↦ false≢true (
                  sym e
                  ∙ IsHeld-is_held dev inum (t i)
                      (subst (λ x. IsHeld dev inum (t x)) (sym same) held))
              | no ne ↦ other j (omega arith) (omega arith) held
            ],
            remember-Remembers t i n empty _ r,
          )
        ])
]
