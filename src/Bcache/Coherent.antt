-- ===== src/Bcache/Coherent.antt =====
-- The blocks that the cache of kernel/bio.c stands for, and how a change to one buffer changes
-- them.
use native.Mathlib.Decide.{ℕ_discrete}
use raid_system.Prelude.{
  ℕ, ◌<◌, ◌≡◌, ◌≢◌, refl, sym, ◌∙◌, ap, subst, true, none, some, if◌then◌else◌, inl, inr,
}
use raid_system.Log.Store.{Contents}
use raid_system.Bcache.{nbuf, Buf, Bcache, find_cached}
use raid_system.Bcache.Find.{contains, IsFor, find_cached-cases}

abbrev pub IsIn : ℕ → Bcache → Type 0
IsIn i s = contains i s.order ≡ true

-- What the buffer `b` of block `blockno` stands for
abbrev pub cell : Bcache → ℕ → Buf → Contents
cell s blockno b = if b.valid then b.bytes else s.disk blockno

-- What a reader of block `blockno` of the device gets.
unfoldable pub contents : ℕ → ℕ → Bcache → Contents
contents dev blockno s = elim (find_cached dev blockno s.buf s.order) [
  | some i ↦ cell s blockno (s.buf i)
  | none ↦ s.disk blockno
]

-- The list has the buffers, a block of the device has one at most, no other device is cached, and
-- a buffer that is not used is as the disk.
pub record IsCoherent (dev : ℕ) (s : Bcache) : Type 0 where
  pub listed : (i : ℕ) → i < nbuf → IsIn i s
  pub bound : (i : ℕ) → IsIn i s → i < nbuf
  pub unique :
      (i j blockno : ℕ)
      → IsIn i s
      → IsIn j s
      → IsFor dev blockno (s.buf i)
      → IsFor dev blockno (s.buf j)
      → i ≡ j
  pub one_device : (i : ℕ) → IsIn i s → (s.buf i).valid ≡ true → (s.buf i).dev ≡ dev
  pub clean :
      (i : ℕ)
      → IsIn i s
      → (s.buf i).valid ≡ true
      → (s.buf i).refcnt ≡ 0
      → (s.buf i).bytes ≡ s.disk (s.buf i).blockno

module _ (dev : ℕ) (s : Bcache) (ok : IsCoherent dev s) where
  pub contents-cached :
      (i blockno : ℕ)
      → IsIn i s
      → IsFor dev blockno (s.buf i)
      → contents dev blockno s ≡ cell s blockno (s.buf i)
  unfolding contents
  contents-cached i blockno there key = elim (find_cached-cases dev blockno s.buf s.order) [
    | inl (j, found, there', key') ↦
        rw (found, contents)
          (ap (λ x. cell s blockno (s.buf x)) (ok.unique j i blockno there' there key' key))
    | inr (missing, other) ↦ absurd (other i there key)
  ]

pub contents-absent :
    (dev blockno : ℕ) (s : Bcache)
    → ((j : ℕ) → IsIn j s → ¬ IsFor dev blockno (s.buf j))
    → contents dev blockno s ≡ s.disk blockno
unfolding contents
contents-absent dev blockno s other = elim (find_cached-cases dev blockno s.buf s.order) [
  | inl (j, found, there, key) ↦ absurd (other j there key)
  | inr (missing, other') ↦ rw (missing, contents) refl
]

-- From `s` to `t` the buffer `i` becomes `b`, its block is the only one of the disk to change, and
-- the list keeps its buffers.
pub record Replaces (s t : Bcache) (i : ℕ) (b : Buf) : Type 0 where
  pub there : IsIn i s
  pub here : t.buf i ≡ b
  pub others : (j : ℕ) → j ≢ i → t.buf j ≡ s.buf j
  pub order : (j : ℕ) → contains j t.order ≡ contains j s.order
  pub disk : (c : ℕ) → c ≢ b.blockno → t.disk c ≡ s.disk c

module _ (dev : ℕ) (s t : Bcache) (i : ℕ) (b : Buf) (ok : IsCoherent dev s)
    (step : Replaces s t i b) (on : b.dev ≡ dev)
    (fresh : (j : ℕ) → IsIn j s → j ≢ i → ¬ IsFor dev b.blockno (s.buf j)) where
  back : (j : ℕ) → IsIn j t → IsIn j s
  back j h = sym (step.order j) ∙ h

  -- A buffer for a block is the new one or an old one.
  other_buffer : (j : ℕ) → j ≢ i → (c : ℕ) → IsFor dev c (t.buf j) → IsFor dev c (s.buf j)
  other_buffer j ne c key = subst (λ x. IsFor dev c x) (step.others j ne) key

  new_blockno : (c : ℕ) → IsFor dev c (t.buf i) → b.blockno ≡ c
  new_blockno c key = subst (λ (x : Buf). x.blockno ≡ c) step.here key.1

  unique_after :
      (j k c : ℕ) → IsIn j t → IsIn k t → IsFor dev c (t.buf j) → IsFor dev c (t.buf k) → j ≡ k
  unique_after j k c hj hk key key' = elim (ℕ_discrete j i) [
    | yes e ↦ elim (ℕ_discrete k i) [
      | yes e' ↦ e ∙ sym e'
      | no ne ↦
          let same = new_blockno c (subst (λ x. IsFor dev c (t.buf x)) e key) in
          absurd (
            fresh k (back k hk) ne
              (subst (λ x. IsFor dev x (s.buf k)) (sym same) (other_buffer k ne c key')))
    ]
    | no ne ↦ elim (ℕ_discrete k i) [
      | yes e' ↦
          let same = new_blockno c (subst (λ x. IsFor dev c (t.buf x)) e' key') in
          absurd (
            fresh j (back j hj) ne
              (subst (λ x. IsFor dev x (s.buf j)) (sym same) (other_buffer j ne c key)))
      | no ne' ↦
          ok.unique j k c (back j hj) (back k hk) (other_buffer j ne c key)
            (other_buffer k ne' c key')
    ]
  ]

  pub Replaces-IsCoherent :
      (b.valid ≡ true → b.refcnt ≡ 0 → b.bytes ≡ t.disk b.blockno) → IsCoherent dev t
  Replaces-IsCoherent clean_b = record {
    listed = λ j h. step.order j ∙ ok.listed j h;
    bound = λ j h. ok.bound j (back j h);
    unique = unique_after;
    one_device = λ j h valid. elim (ℕ_discrete j i) [
      | yes e ↦ rw e (ap (λ (x : Buf). x.dev) step.here ∙ on)
      | no ne ↦
          ap (λ (x : Buf). x.dev) (step.others j ne)
          ∙ ok.one_device j (back j h) (sym (ap (λ (x : Buf). x.valid) (step.others j ne)) ∙ valid)
    ];
    clean = λ j h. elim (ℕ_discrete j i) [
      | yes e ↦ rw (e, step.here) clean_b
      | no ne ↦ rw (step.others j ne) (λ valid unused.
          ok.clean j (back j h) valid unused
          ∙ sym (
              step.disk (s.buf j).blockno
                (λ same. fresh j (back j h) ne (ok.one_device j (back j h) valid, same))))
    ];
  }

  pub contents-new : IsCoherent dev t → contents dev b.blockno t ≡ cell t b.blockno b
  contents-new ok' =
      contents-cached dev t ok' i b.blockno (step.order i ∙ step.there) (rw step.here (on, refl))
      ∙ ap (cell t b.blockno) step.here

  -- A block other than that of the new buffer, and which the buffer that it took, if that had it,
  -- had as the disk
  pub contents-kept :
      IsCoherent dev t
      → (c : ℕ) → c ≢ b.blockno
      → (IsFor dev c (s.buf i) → cell s c (s.buf i) ≡ s.disk c)
      → contents dev c t ≡ contents dev c s
  contents-kept ok' c ne clean_i = elim (find_cached-cases dev c s.buf s.order) [
    | inl (j, found, there, key) ↦ elim (ℕ_discrete j i) [
      | yes e ↦
          let key_i = subst (λ x. IsFor dev c (s.buf x)) e key in
          contents-absent dev c t (λ k h key'. elim (ℕ_discrete k i) [
            | yes e' ↦ ne (sym (new_blockno c (subst (λ x. IsFor dev c (t.buf x)) e' key')))
            | no ne' ↦ ne' (ok.unique k i c (back k h) step.there (other_buffer k ne' c key') key_i)
          ])
          ∙ step.disk c ne
          ∙ sym (clean_i key_i)
          ∙ sym (contents-cached dev s ok i c step.there key_i)
      | no ne' ↦
          contents-cached dev t ok' j c (step.order j ∙ there)
            (subst (λ x. IsFor dev c x) (sym (step.others j ne')) key)
          ∙ ap (cell t c) (step.others j ne')
          ∙ ap (λ d. if (s.buf j).valid then (s.buf j).bytes else d) (step.disk c ne)
          ∙ sym (contents-cached dev s ok j c there key)
    ]
    | inr (missing, other) ↦
        contents-absent dev c t (λ k h key'. elim (ℕ_discrete k i) [
          | yes e' ↦ ne (sym (new_blockno c (subst (λ x. IsFor dev c (t.buf x)) e' key')))
          | no ne' ↦ other k (back k h) (other_buffer k ne' c key')
        ])
        ∙ step.disk c ne
        ∙ sym (contents-absent dev c s other)
  ]
