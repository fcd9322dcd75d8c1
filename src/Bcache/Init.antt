-- ===== src/Bcache/Init.antt =====
-- `binit` of kernel/bio.c.
use native.Mathlib.Decide.{ℕ_discrete}
use raid_system.Prelude.{ℕ, zero, suc, ◌<◌, ◌≡◌, ◌≢◌, sym, arith, true, inl, inr}
use mathlib.Core.Bool.{false≢true}
use raid_system.Log.Store.{Contents}
use raid_system.Bcache.{linked, binit}
use raid_system.Bcache.Find.{contains, contains-head, contains-tail, contains-cases}
use raid_system.Bcache.Coherent.{contents, IsCoherent, contents-absent}

linked-in : (n i : ℕ) → i < n → contains i (linked n) ≡ true
unfolding linked
linked-in zero i h = absurd (omega arith)
linked-in (suc n) i h = elim (ℕ_discrete i n) [
  | yes e ↦ rw e (contains-head n (linked n))
  | no ne ↦ contains-tail n i (linked n) (linked-in n i (omega arith))
]

linked-bound : (n i : ℕ) → contains i (linked n) ≡ true → i < n
unfolding linked contains
linked-bound zero i h = absurd (false≢true h)
linked-bound (suc n) i h = elim (contains-cases n i (linked n) h) [
  | inl e ↦ omega (arith, e)
  | inr later ↦ omega (arith, linked-bound n i later)
]

-- The cache that `binit` sets up is coherent for any device but 0, the number in the empty
-- buffers, and stands for the blocks of the disk.
pub binit-IsCoherent :
    (dev : ℕ) (disk : ℕ → Contents)
    → dev ≢ 0
    → IsCoherent dev (binit disk) × ((c : ℕ) → contents dev c (binit disk) ≡ disk c)
unfolding binit
binit-IsCoherent dev disk ne = (
  record {
    listed = λ i h. linked-in 30 i h;
    bound = λ i h. linked-bound 30 i h;
    unique = λ i j c hi hj key key'. absurd (ne (sym key.0));
    one_device = λ i h valid. absurd (false≢true valid);
    clean = λ i h valid unused. absurd (false≢true valid);
  },
  λ c. contents-absent dev c (binit disk) (λ j h key. ne (sym key.0)),
)
