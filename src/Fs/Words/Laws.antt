-- ===== src/Fs/Words/Laws.antt =====
-- Words in a block of kernel/fs.c are read back, and apart from each other.
use raid_system.Prelude.{
  ℕ, zero, suc, ◌+◌, ◌*◌, ◌/◌, ◌%◌, ◌≤◌, ◌<◌, ◌≡◌, refl, ◌∙◌, ap₂, arith, ◌⊎◌, inl, inr, List, [],
  ◌∷◌, update, update_self, update_ne, length,
}
use raid_system.Log.Store.{Contents}
use raid_system.Fs.Words.{put_word, get_word, put_words, get_words}

-- How many values a word of `w` bytes has
abbrev pub limit : ℕ → ℕ
limit zero = 1
limit (suc w) = 256 * limit w

-- How many bytes `n` words take
abbrev pub span : ℕ → ℕ → ℕ
span w zero = 0
span w (suc n) = w + span w n

abbrev pub AllBelow : ℕ → List ℕ → Type 0
AllBelow b [] = Unit
AllBelow b (v ∷ vs) = (v < b) × AllBelow b vs

pub put_word_outside :
    (w a v i : ℕ) (c : Contents) → (i < a) ⊎ (a + w ≤ i) → put_word w a v c i ≡ c i
put_word_outside zero a v i c out = refl
put_word_outside (suc w) a v i c out =
    put_word_outside w (suc a) (v / 256) i (update c a (v % 256))
      (elim out [ inl l ↦ inl (omega arith) | inr l ↦ inr (omega arith) ])
    ∙ update_ne c a i (v % 256) (elim out [ inl l ↦ omega arith | inr l ↦ omega arith ])

pub put_words_outside :
    (w a i : ℕ) (vs : List ℕ) (c : Contents)
    → (i < a) ⊎ (a + span w (length vs) ≤ i)
    → put_words w a vs c i ≡ c i
unfolding put_words
put_words_outside w a i [] c out = refl
put_words_outside w a i (v ∷ vs) c out =
    put_words_outside w (a + w) i vs (put_word w a v c)
      (elim out [ inl l ↦ inl (omega arith) | inr l ↦ inr (omega arith) ])
    ∙ put_word_outside w a v i c (elim out [ inl l ↦ inl l | inr l ↦ inr (omega arith) ])

-- A word depends on its own bytes only.
pub get_word-same :
    (w a : ℕ) (c d : Contents)
    → ((i : ℕ) → a ≤ i → i < a + w → c i ≡ d i)
    → get_word w a c ≡ get_word w a d
get_word-same zero a c d same = refl
get_word-same (suc w) a c d same =
    ap₂ (λ x y. x + 256 * y) (same a (omega arith) (omega arith))
      (get_word-same w (suc a) c d (λ i lo hi. same i (omega arith) (omega arith)))

pub get_words-same :
    (w n a : ℕ) (c d : Contents)
    → ((i : ℕ) → a ≤ i → i < a + span w n → c i ≡ d i)
    → get_words w a n c ≡ get_words w a n d
unfolding get_words
get_words-same w zero a c d same = refl
get_words-same w (suc n) a c d same =
    ap₂ (λ x xs. x ∷ xs) (get_word-same w a c d (λ i lo hi. same i lo (omega arith)))
      (get_words-same w n (a + w) c d (λ i lo hi. same i (omega arith) (omega arith)))

pub get_word-put_word :
    (w a v : ℕ) (c : Contents) → v < limit w → get_word w a (put_word w a v c) ≡ v
get_word-put_word zero a v c h = omega arith
get_word-put_word (suc w) a v c h =
    let c' = update c a (v % 256) in
    let low : put_word w (suc a) (v / 256) c' a ≡ v % 256 =
      put_word_outside w (suc a) (v / 256) a c' (inl (omega arith)) ∙ update_self c a (v % 256) in
    let high = get_word-put_word w (suc a) (v / 256) c' (omega arith) in
    ap₂ (λ x y. x + 256 * y) low high ∙ omega arith

pub get_words-put_words :
    (w a : ℕ) (vs : List ℕ) (c : Contents)
    → AllBelow (limit w) vs
    → get_words w a (length vs) (put_words w a vs c) ≡ vs
unfolding put_words get_words
get_words-put_words w a [] c h = refl
get_words-put_words w a (v ∷ vs) c h =
    let c' = put_word w a v c in
    ap₂ (λ x xs. x ∷ xs)
      (get_word-same w a (put_words w (a + w) vs c') c'
          (λ i lo hi. put_words_outside w (a + w) i vs c' (inl hi))
        ∙ get_word-put_word w a v c h.0)
      (get_words-put_words w (a + w) vs c' h.1)

-- A word is not changed by a write to another one.
pub get_word_apart :
    (w a w' a' v : ℕ) (c : Contents)
    → (a + w ≤ a') ⊎ (a' + w' ≤ a)
    → get_word w a (put_word w' a' v c) ≡ get_word w a c
get_word_apart w a w' a' v c apart = get_word-same w a (put_word w' a' v c) c (λ i lo hi.
    put_word_outside w' a' v i c
      (elim apart [ inl l ↦ inl (omega arith) | inr l ↦ inr (omega arith) ]))

pub get_word-put_words_before :
    (w a w' a' : ℕ) (vs : List ℕ) (c : Contents)
    → a + w ≤ a'
    → get_word w a (put_words w' a' vs c) ≡ get_word w a c
get_word-put_words_before w a w' a' vs c before =
    get_word-same w a (put_words w' a' vs c) c
      (λ i lo hi. put_words_outside w' a' i vs c (inl (omega arith)))
