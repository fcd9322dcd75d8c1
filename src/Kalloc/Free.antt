-- ===== src/Kalloc/Free.antt =====
-- `kfree` and `kalloc` of kernel/kalloc.c as a stack of pages.
use native.Mathlib.Decide.{dec_lt, ℕ_discrete}
use raid_system.Prelude.{
  ℕ, zero, suc, ◌+◌, ◌-◌, ◌%◌, ◌≤◌, ◌<◌, ◌≡◌, ◌≢◌, refl, sym, ◌∙◌, ap, subst, arith, some, List, [],
  ◌∷◌, update, update_self, update_ne, le→leb, lt→ltb, ==_eq, ==_ne, inl, inr, ◌⊎◌,
}
use raid_system.Memory.{Bytes, set_bytes, memset}
use raid_system.Fs.Words.{put_word, get_word}
use raid_system.Fs.Words.Laws.{limit, put_word_outside, get_word-same, get_word-put_word}
use raid_system.Kalloc.{pgsize, phystop, Kmem, kfree, kalloc}

-- The bytes of a page become `c`, and no others.
pub record Fills (d c n : ℕ) (m m' : Bytes) : Type 0 where
  pub filled : (k : ℕ) → k < n → m' (d + k) ≡ c % 256
  pub others : (a : ℕ) → (a < d) ⊎ (d + n ≤ a) → m' a ≡ m a

set_bytes-Fills : (d c n i : ℕ) (m : Bytes) → Fills (d + i) c n m (set_bytes d c n i m)
unfolding set_bytes
set_bytes-Fills d c zero i m = record { filled = λ k h. absurd (omega arith); others = λ a h. refl }
set_bytes-Fills d c (suc n) i m =
    let r = set_bytes-Fills d c n (suc i) (update m (d + i) (c % 256)) in
    record {
      filled = λ k h. elim (ℕ_discrete 0 k) [
        | yes z ↦
            let e : d + i + k ≡ d + i = omega arith in
            rw e (r.others (d + i) (inl (omega arith)) ∙ update_self m (d + i) (c % 256))
        | no ne ↦
            let e : d + i + k ≡ d + suc i + (k - 1) = omega arith in
            rw e (r.filled (k - 1) (omega arith))
      ];
      others = λ a h.
          r.others a (elim h [ inl l ↦ inl (omega arith) | inr l ↦ inr (omega arith) ])
          ∙ update_ne m (d + i) a (c % 256) (elim h [ inl l ↦ omega arith | inr l ↦ omega arith ]);
    }

pub memset-Fills : (d c n : ℕ) (m : Bytes) → Fills d c n m (memset d c n m)
unfolding memset
memset-Fills d c n m =
    let e : d + 0 ≡ d = omega arith in
    subst (λ x. Fills x c n m (set_bytes d c n 0 m)) e (set_bytes-Fills d c n 0 m)

-- A page of the memory behind the kernel
abbrev pub IsPage : ℕ → ℕ → Type 0
IsPage first x = (x % pgsize ≡ 0) × (first ≤ x) × (x < phystop)

-- `p` points to the pages `xs`, linked in the memory and all different.
abbrev pub IsFresh : ℕ → List ℕ → Type 0
IsFresh x [] = Unit
IsFresh x (y ∷ ys) = (x ≢ y) × IsFresh x ys

abbrev pub IsList : ℕ → List ℕ → ℕ → Bytes → Type 0
IsList first [] p m = p ≡ 0
IsList first (x ∷ xs) p m =
    (p ≡ x) × IsPage first x × IsFresh x xs × IsList first xs (get_word 8 x m) m

-- A change within another page leaves the list.
pub IsList-outside :
    (first pa p : ℕ) (xs : List ℕ) (m m' : Bytes)
    → pa % pgsize ≡ 0
    → IsFresh pa xs
    → ((a : ℕ) → (a < pa) ⊎ (pa + pgsize ≤ a) → m' a ≡ m a)
    → IsList first xs p m
    → IsList first xs p m'
IsList-outside first pa p [] m m' aligned fresh same l = l
IsList-outside first pa p (x ∷ xs) m m' aligned (ne, fresh) same (e, page, different, rest) =
    let word : get_word 8 x m' ≡ get_word 8 x m =
      get_word-same 8 x m' m (λ i lo hi. same i (apart x i page.0 ne lo hi)) in
    (
      e,
      page,
      different,
      IsList-outside first pa (get_word 8 x m') xs m m' aligned fresh same
          (subst (λ n. IsList first xs n m) (sym word) rest),
    )
  where
    apart : (x i : ℕ) → x % pgsize ≡ 0 → pa ≢ x → x ≤ i → i < x + 8 → (i < pa) ⊎ (pa + pgsize ≤ i)
    apart x i al ne lo hi = elim (dec_lt i pa) [ yes l ↦ inl l | no h ↦ inr (omega arith) ]

-- The list of free pages is that of the abstract stack `xs`.
abbrev pub IsFree : ℕ → Kmem → List ℕ → Type 0
IsFree first s xs = IsList first xs s.freelist s.memory

-- `kfree` of a page behind the kernel that is not free already, where the list of free pages in
-- the memory is `xs` and the kernel does not end at address 0: it succeeds, puts the page on top
-- of the free ones, and changes no byte outside the page.
pub kfree-IsFree :
    (first pa : ℕ) (xs : List ℕ) (s : Kmem)
    → 0 < first
    → IsFree first s xs
    → IsPage first pa
    → IsFresh pa xs
    → (t : Kmem) × (kfree first pa s ≡ some t)
      × IsFree first t (pa ∷ xs)
      × ((a : ℕ) → (a < pa) ⊎ (pa + pgsize ≤ a) → t.memory a ≡ s.memory a)
unfolding kfree
kfree-IsFree first pa xs s some_end free page fresh =
    let junk = memset-Fills pa 1 pgsize s.memory in
    let m' = put_word 8 pa s.freelist (memset pa 1 pgsize s.memory) in
    let outside : (a : ℕ) → (a < pa) ⊎ (pa + pgsize ≤ a) → m' a ≡ s.memory a = λ a h.
      put_word_outside 8 pa s.freelist a (memset pa 1 pgsize s.memory)
        (elim h [ inl l ↦ inl l | inr l ↦ inr (omega arith) ])
      ∙ junk.others a h in
    let next : get_word 8 pa m' ≡ s.freelist =
      get_word-put_word 8 pa s.freelist (memset pa 1 pgsize s.memory)
        (below first s.freelist xs s.memory free) in
    (
      record { freelist = pa; memory = m' },
      rw (==_eq (pa % pgsize) 0 page.0, le→leb first pa page.1, lt→ltb pa phystop page.2) refl,
      (
        refl,
        page,
        fresh,
        subst (λ n. IsList first xs n m') (sym next)
            (IsList-outside first pa s.freelist xs s.memory m' page.0 fresh outside free),
      ),
      outside,
    )
  where
    below : (first p : ℕ) (xs : List ℕ) (m : Bytes) → IsList first xs p m → p < limit 8
    below first p [] m e = omega (arith, e)
    below first p (x ∷ xs) m (e, page, fresh, rest) = omega (arith, e, page.2)

-- The result of a call on the free pages `xs`
pub Allocates : ℕ → List ℕ → Kmem → ℕ × Kmem → Type 0
Allocates first [] s r = r ≡ (0, s)
Allocates first (x ∷ xs) s r =
    (r.0 ≡ x)
    × (x ≢ 0)
    × IsFree first r.1 xs
    × ((k : ℕ) → k < pgsize → r.1.memory (x + k) ≡ 5)
    × ((a : ℕ) → (a < x) ⊎ (x + pgsize ≤ a) → r.1.memory a ≡ s.memory a)

-- `kalloc`, where the list of free pages in the memory is `xs` and the kernel does not end at
-- address 0: it returns the first of them, which is not null, all bytes of which are 5 then, the
-- others stay free, and no byte outside the page changes; or it returns 0 where none is free, and
-- nothing changes.
pub kalloc-Allocates :
    (first : ℕ) (xs : List ℕ) (s : Kmem)
    → 0 < first
    → IsFree first s xs
    → Allocates first xs s (kalloc s)
unfolding kalloc Allocates
kalloc-Allocates first [] s some_end free = rw (==_eq s.freelist 0 free) (ap (λ n. (n, s)) free)
kalloc-Allocates first (x ∷ xs) s some_end (e, page, fresh, rest) =
    let some_page : s.freelist ≢ 0 = omega (arith, e, page.1) in
    let m' = memset s.freelist 5 pgsize s.memory in
    let fives = memset-Fills s.freelist 5 pgsize s.memory in
    rw (==_ne s.freelist 0 some_page) (
      e,
      (λ z. some_page (e ∙ z)),
      IsList-outside first x (get_word 8 s.freelist s.memory) xs s.memory m' page.0 fresh
          (rw⁻¹ e fives.others) (rw e rest),
      (rw⁻¹ e fives.filled),
      (rw⁻¹ e fives.others),
    )
