-- ===== src/Log/Find.antt =====
-- The search of `log_write` of kernel/log.c for a block that is in the log.
use raid_system.Prelude.{
  ℕ, zero, suc, ◌+◌, ◌≤◌, ◌<◌, ◌≡◌, ◌≢◌, refl, ◌∙◌, subst, arith, Option, some, List, length,
  get_elem?-eq-get_or, inl, inr, ◌⊎◌, ==_eq, ==_ne, ◌==◌, true, false,
}
use native.Mathlib.Decide.{ℕ_discrete}
use raid_system.Log.{find_logged}
use raid_system.Log.Install.{home}

-- The search ends at a block with this number or behind the last one.
pub record Finds (blockno : ℕ) (block : List ℕ) (lo k : ℕ) (result : Option ℕ) : Type 0 where
  pub index : ℕ
  pub returns : result ≡ some index
  pub before : (j : ℕ) → lo ≤ j → j < index → home block j ≢ blockno
  pub place : ((index < lo + k) × (home block index ≡ blockno)) ⊎ (index ≡ lo + k)

find_logged-suc :
    (blockno : ℕ) (block : List ℕ) (lo k : ℕ)
    → lo < length block
    → find_logged blockno block (suc k) lo ≡ (elim (home block lo == blockno) [
      | true ↦ some lo
      | false ↦ find_logged blockno block k (suc lo)
    ])
unfolding find_logged
find_logged-suc blockno block lo k h = rw (get_elem?-eq-get_or block lo 0 h)

pub find_logged-Finds :
    (blockno : ℕ) (block : List ℕ) (lo k : ℕ)
    → lo + k ≤ length block
    → Finds blockno block lo k (find_logged blockno block k lo)
unfolding find_logged
find_logged-Finds blockno block lo zero inside = record {
  index = lo;
  returns = refl;
  before = λ j l h. absurd (omega arith);
  place = inr (omega arith);
}
find_logged-Finds blockno block lo (suc k) inside =
    let step = find_logged-suc blockno block lo k (omega arith) in
    elim (ℕ_discrete (home block lo) blockno) [
      | yes e ↦ record {
        index = lo;
        returns = step ∙ rw (==_eq (home block lo) blockno e) refl;
        before = λ j l h. absurd (omega arith);
        place = inl (omega arith, e);
      }
      | no ne ↦
          let r = find_logged-Finds blockno block (suc lo) k (omega arith) in
          record {
            index = r.index;
            returns = step ∙ rw (==_ne (home block lo) blockno ne) r.returns;
            before = λ j l h. elim (ℕ_discrete lo j) [
              | yes e ↦ subst (λ x. home block x ≢ blockno) e ne
              | no later ↦ r.before j (omega arith) h
            ];
            place = elim r.place [
              | inl found ↦ inl (omega (arith, found.0), found.1)
              | inr behind ↦ inr (omega (arith, behind))
            ];
          }
    ]
