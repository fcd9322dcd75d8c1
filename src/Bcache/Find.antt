-- ===== src/Bcache/Find.antt =====
-- The searches of `bget` of kernel/bio.c in the list of the buffers.
use native.Mathlib.Decide.{ℕ_discrete}
use raid_system.Prelude.{
  ℕ, ◌≡◌, ◌≢◌, refl, sym, ◌∙◌, arith, Bool, true, false, none, some, List, [], ◌∷◌, ◌==◌, ◌||◌,
  ==_eq, ==_ne, inl, inr, ◌⊎◌, Bool-cases, subst,
}
use mathlib.Core.Bool.{false≢true}
use raid_system.Bcache.{Buf, is_for, find_cached, find_unused, unlink}

-- The buffer `i` is in the list.
unfoldable pub contains : ℕ → List ℕ → Bool
contains i [] = false
contains i (j ∷ order) = j == i || contains i order

-- The buffer has that block.
abbrev pub IsFor : ℕ → ℕ → Buf → Type 0
IsFor dev blockno b = (b.dev ≡ dev) × (b.blockno ≡ blockno)

IsFor-is_for : (dev blockno : ℕ) (b : Buf) → IsFor dev blockno b → is_for dev blockno b ≡ true
IsFor-is_for dev blockno b h = rw (==_eq b.dev dev h.0, ==_eq b.blockno blockno h.1) refl

is_for-IsFor : (dev blockno : ℕ) (b : Buf) → is_for dev blockno b ≡ true → IsFor dev blockno b
is_for-IsFor dev blockno b e = (ground arith, ground arith)

-- What the first loop finds: a buffer of the list with the block, or there is none.
pub contains-tail :
    (i j : ℕ) (order : List ℕ) → contains j order ≡ true → contains j (i ∷ order) ≡ true
unfolding contains
contains-tail i j order h = elim (Bool-cases (i == j)) [
  | inl e ↦ rw (e, contains) refl
  | inr e ↦ rw (e, contains) h
]

pub contains-cases :
    (i j : ℕ) (order : List ℕ) → contains j (i ∷ order) ≡ true → (i ≡ j) ⊎ (contains j order ≡ true)
unfolding contains
contains-cases i j order h = elim (ℕ_discrete i j) [
  | yes e ↦ inl e
  | no ne ↦ inr (rw (==_ne i j ne, contains) at h)
]

pub contains-head : (i : ℕ) (order : List ℕ) → contains i (i ∷ order) ≡ true
unfolding contains
contains-head i order = rw (==_eq i i refl, contains) refl

pub find_cached-cases :
    (dev blockno : ℕ) (buf : ℕ → Buf) (order : List ℕ)
    → ((i : ℕ) × (find_cached dev blockno buf order ≡ some i)
        × (contains i order ≡ true)
        × IsFor dev blockno (buf i))
      ⊎ ((find_cached dev blockno buf order ≡ none)
          × ((j : ℕ) → contains j order ≡ true → ¬ IsFor dev blockno (buf j)))
unfolding find_cached contains
find_cached-cases dev blockno buf [] = inr (refl, λ j h. absurd (false≢true h))
find_cached-cases dev blockno buf (i ∷ order) = elim (Bool-cases (is_for dev blockno (buf i))) [
  | inl e ↦
      inl (i, rw (e, find_cached) refl, contains-head i order, is_for-IsFor dev blockno (buf i) e)
  | inr e ↦ elim (find_cached-cases dev blockno buf order) [
    | inl (j, found, there, key) ↦
        inl (j, rw (e, find_cached) found, contains-tail i j order there, key)
    | inr (missing, other) ↦ inr (
      rw (e, find_cached) missing,
      λ j h key. elim (contains-cases i j order h) [
        | inl same ↦ absurd (
            false≢true (
              sym e
              ∙ subst (λ x. is_for dev blockno (buf x) ≡ true) (sym same)
                  (IsFor-is_for dev blockno (buf j) key)))
        | inr later ↦ other j later key
      ],
    )
  ]
]

-- The second loop finds a buffer of the list that is not used, or there is none.
pub find_unused-cases :
    (buf : ℕ → Buf) (order : List ℕ)
    → ((i : ℕ) × (find_unused buf order ≡ some i)
        × (contains i order ≡ true)
        × ((buf i).refcnt ≡ 0))
      ⊎ ((find_unused buf order ≡ none) × ((j : ℕ) → contains j order ≡ true → (buf j).refcnt ≢ 0))
unfolding find_unused contains
find_unused-cases buf [] = inr (refl, λ j h. absurd (false≢true h))
find_unused-cases buf (i ∷ order) = elim (find_unused-cases buf order) [
  | inl (k, found, there, unused) ↦
      inl (k, rw (found, find_unused) refl, contains-tail i k order there, unused)
  | inr (missing, used) ↦ elim (ℕ_discrete (buf i).refcnt 0) [
    | yes e ↦
        inl (i, rw (missing, ==_eq (buf i).refcnt 0 e, find_unused) refl, contains-head i order, e)
    | no ne ↦ inr (
      rw (missing, ==_ne (buf i).refcnt 0 ne, find_unused) refl,
      λ j h. elim (contains-cases i j order h) [
        | inl same ↦ subst (λ x. (buf x).refcnt ≢ 0) same ne
        | inr later ↦ used j later
      ],
    )
  ]
]

-- Where a buffer is in the list, moving it to the front keeps which buffers are in it.
pub contains-unlink :
    (i j : ℕ) (order : List ℕ)
    → contains i order ≡ true
    → contains j (i ∷ unlink i order) ≡ contains j order
unfolding contains unlink
contains-unlink i j [] h = absurd (false≢true h)
contains-unlink i j (k ∷ order) h = elim (ℕ_discrete k i) [
  | yes e ↦ rw (==_eq k i e, unlink) (rw e refl)
  | no ne ↦
      let there : contains i order ≡ true = elim (contains-cases k i order h) [
        | inl e ↦ absurd (ne e)
        | inr t ↦ t
      ] in
      rw (==_ne k i ne, unlink)
        (elim (Bool-cases (k == j)) [
          | inl e ↦
              rw (e, contains)
                (elim (Bool-cases (i == j)) [ inl f ↦ rw f refl | inr f ↦ rw f refl ])
          | inr e ↦ rw (e, contains) (contains-unlink i j order there)
        ])
]
