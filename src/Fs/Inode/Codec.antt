-- ===== src/Fs/Inode/Codec.antt =====
-- `iupdate` and `ilock` of kernel/fs.c: an inode on the disk and back.
use raid_system.Prelude.{ℕ, ◌+◌, ◌≤◌, ◌<◌, ◌≡◌, ◌∙◌, subst, arith, ◌⊎◌, inl, inr, length}
use raid_system.Log.Store.{Contents}
use raid_system.Fs.Words.{put_word, get_word, get_words}
use raid_system.Fs.Words.Laws.{
  AllBelow, put_word_outside, put_words_outside, get_word-put_word, get_words-put_words,
  get_word_apart, get_word-put_words_before,
}
use raid_system.Fs.Inode.{Inode, dinode_at, put_dinode}

-- The fields fit their types.
pub record IsInode (ip : Inode) : Type 0 where
  pub type : ip.type < 65536
  pub major : ip.major < 65536
  pub minor : ip.minor < 65536
  pub nlink : ip.nlink < 65536
  pub size : ip.size < 4294967296
  pub size_addrs : length ip.addrs ≡ 13
  pub addrs : AllBelow 4294967296 ip.addrs

module _ (ip : Inode) (ok : IsInode ip) (c : Contents) where
  abbrev pub a : ℕ
  a = dinode_at ip.inum

  abbrev pub c₁ : Contents
  c₁ = put_word 2 a ip.type c

  abbrev pub c₂ : Contents
  c₂ = put_word 2 (a + 2) ip.major c₁

  abbrev pub c₃ : Contents
  c₃ = put_word 2 (a + 4) ip.minor c₂

  abbrev pub c₄ : Contents
  c₄ = put_word 2 (a + 6) ip.nlink c₃

  abbrev pub c₅ : Contents
  c₅ = put_word 4 (a + 8) ip.size c₄

  before_addrs : (w b : ℕ) → b + w ≤ a + 12 → get_word w b (put_dinode ip c) ≡ get_word w b c₅
  unfolding put_dinode
  before_addrs w b h = get_word-put_words_before w b 4 (a + 12) ip.addrs c₅ h

  before_size : (b : ℕ) → b + 2 ≤ a + 8 → get_word 2 b (put_dinode ip c) ≡ get_word 2 b c₄
  before_size b h = before_addrs 2 b (omega arith) ∙ get_word_apart 2 b 4 (a + 8) ip.size c₄ (inl h)

  -- Each field is read back.
  pub get-type : get_word 2 a (put_dinode ip c) ≡ ip.type
  get-type =
      before_size a (omega arith)
      ∙ get_word_apart 2 a 2 (a + 6) ip.nlink c₃ (inl (omega arith))
      ∙ get_word_apart 2 a 2 (a + 4) ip.minor c₂ (inl (omega arith))
      ∙ get_word_apart 2 a 2 (a + 2) ip.major c₁ (inl (omega arith))
      ∙ get_word-put_word 2 a ip.type c ok.type

  pub get-major : get_word 2 (a + 2) (put_dinode ip c) ≡ ip.major
  get-major =
      before_size (a + 2) (omega arith)
      ∙ get_word_apart 2 (a + 2) 2 (a + 6) ip.nlink c₃ (inl (omega arith))
      ∙ get_word_apart 2 (a + 2) 2 (a + 4) ip.minor c₂ (inl (omega arith))
      ∙ get_word-put_word 2 (a + 2) ip.major c₁ ok.major

  pub get-minor : get_word 2 (a + 4) (put_dinode ip c) ≡ ip.minor
  get-minor =
      before_size (a + 4) (omega arith)
      ∙ get_word_apart 2 (a + 4) 2 (a + 6) ip.nlink c₃ (inl (omega arith))
      ∙ get_word-put_word 2 (a + 4) ip.minor c₂ ok.minor

  pub get-nlink : get_word 2 (a + 6) (put_dinode ip c) ≡ ip.nlink
  get-nlink = before_size (a + 6) (omega arith) ∙ get_word-put_word 2 (a + 6) ip.nlink c₃ ok.nlink

  pub get-size : get_word 4 (a + 8) (put_dinode ip c) ≡ ip.size
  get-size = before_addrs 4 (a + 8) (omega arith) ∙ get_word-put_word 4 (a + 8) ip.size c₄ ok.size

  pub get-addrs : get_words 4 (a + 12) 13 (put_dinode ip c) ≡ ip.addrs
  unfolding put_dinode
  get-addrs =
      subst (λ n. get_words 4 (a + 12) n (put_dinode ip c) ≡ ip.addrs) ok.size_addrs
        (get_words-put_words 4 (a + 12) ip.addrs c₅ ok.addrs)

  -- The 64 bytes of the inode are all that changes.
  pub put_dinode_outside : (i : ℕ) → (i < a) ⊎ (a + 64 ≤ i) → put_dinode ip c i ≡ c i
  unfolding put_dinode
  put_dinode_outside i out =
      put_words_outside 4 (a + 12) i ip.addrs c₅
        (elim out [ inl l ↦ inl (omega arith) | inr l ↦ inr (rw ok.size_addrs (omega arith)) ])
      ∙ put_word_outside 4 (a + 8) ip.size i c₄ (apart 8 4 (omega arith))
      ∙ put_word_outside 2 (a + 6) ip.nlink i c₃ (apart 6 2 (omega arith))
      ∙ put_word_outside 2 (a + 4) ip.minor i c₂ (apart 4 2 (omega arith))
      ∙ put_word_outside 2 (a + 2) ip.major i c₁ (apart 2 2 (omega arith))
      ∙ put_word_outside 2 a ip.type i c (elim out [ inl l ↦ inl l | inr l ↦ inr (omega arith) ])
    where
      apart : (o w : ℕ) → o + w ≤ 64 → (i < a + o) ⊎ (a + o + w ≤ i)
      apart o w h = elim out [ inl l ↦ inl (omega arith) | inr l ↦ inr (omega arith) ]
