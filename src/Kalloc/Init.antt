-- ===== src/Kalloc/Init.antt =====
-- `kinit` of kernel/kalloc.c: which pages it frees.
use raid_system.Prelude.{
  ℕ, zero, suc, ◌+◌, ◌-◌, ◌*◌, ◌/◌, ◌%◌, ◌≤◌, ◌<◌, ◌≡◌, refl, arith, some, List, [], ◌∷◌,
}
use raid_system.Memory.{Bytes}
use raid_system.Kalloc.{pgsize, phystop, pg_round_up, Kmem, free_from, rounds, kinit}
use raid_system.Kalloc.Free.{IsFresh, IsFree, kfree-IsFree}

-- The `n` pages from `p` on, the last in front, and `xs`
abbrev pub pages : ℕ → ℕ → List ℕ → List ℕ
pages zero p xs = xs
pages (suc n) p xs = pages n (p + pgsize) (p ∷ xs)

-- All of the pages lie below `p`.
abbrev pub AllUnder : ℕ → List ℕ → Type 0
AllUnder p [] = Unit
AllUnder p (x ∷ xs) = (x < p) × AllUnder p xs

AllUnder-IsFresh : (p : ℕ) (xs : List ℕ) → AllUnder p xs → IsFresh p xs
AllUnder-IsFresh p [] h = tt
AllUnder-IsFresh p (x ∷ xs) (l, h) = (λ e. omega (arith, e, l), AllUnder-IsFresh p xs h)

le-AllUnder : (p q : ℕ) (xs : List ℕ) → p ≤ q → AllUnder p xs → AllUnder q xs
le-AllUnder p q [] le h = tt
le-AllUnder p q (x ∷ xs) le (l, h) = (omega (arith, l, le), le-AllUnder p q xs le h)

free_from-IsFree :
    (first n p : ℕ) (xs : List ℕ) (s : Kmem)
    → 0 < first
    → p % pgsize ≡ 0
    → first ≤ p
    → p + n * pgsize ≤ phystop
    → AllUnder p xs
    → IsFree first s xs
    → (t : Kmem) × (free_from first n p s ≡ some t) × IsFree first t (pages n p xs)
unfolding free_from
free_from-IsFree first zero p xs s some_end aligned from fits under free = (s, refl, free)
free_from-IsFree first (suc n) p xs s some_end aligned from fits under free =
    let one =
      kfree-IsFree first p xs s some_end free (aligned, from, omega arith)
        (AllUnder-IsFresh p xs under) in
    let rest =
      free_from-IsFree first n (p + pgsize) (p ∷ xs) one.0 some_end (omega arith) (omega arith)
        (omega arith) (omega arith, le-AllUnder p (p + pgsize) xs (omega arith) under) one.2 in
    (rest.0, rw one.1 rest.1, rest.2)

-- `kinit` ends with every page of the memory between the end of the kernel, rounded up, and the
-- top of the memory free, where the kernel ends below that: the allocator then has them as its
-- stack.
pub kinit-IsFree :
    (first : ℕ) (memory : Bytes)
    → 0 < first
    → first ≤ phystop
    → (t : Kmem) × (kinit first memory ≡ some t)
      × IsFree first t (pages ((phystop - pg_round_up first) / pgsize) (pg_round_up first) [])
unfolding kinit
kinit-IsFree first memory some_end fits =
    free_from-IsFree first (rounds (pg_round_up first) phystop) (pg_round_up first) []
      (record { freelist = 0; memory = memory }) some_end (omega arith) (omega arith) (omega arith)
      tt refl
