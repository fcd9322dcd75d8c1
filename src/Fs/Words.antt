-- ===== src/Fs/Words.antt =====
-- Numbers of two and of four bytes in a block, the low byte first, as the processor stores the
-- fields of `struct dinode` and the entries of an indirect block.
pub mod Laws
use raid_system.Prelude.{ℕ, zero, suc, ◌+◌, ◌*◌, ◌/◌, ◌%◌, List, [], ◌∷◌, update}
use raid_system.Log.Store.{Contents}

-- `w` bytes from address `a` on
abbrev pub put_word : ℕ → ℕ → ℕ → Contents → Contents
put_word zero a v c = c
put_word (suc w) a v c = put_word w (suc a) (v / 256) (update c a (v % 256))

abbrev pub get_word : ℕ → ℕ → Contents → ℕ
get_word zero a c = 0
get_word (suc w) a c = c a + 256 * get_word w (suc a) c

-- Words one behind the other
unfoldable pub put_words : ℕ → ℕ → List ℕ → Contents → Contents
put_words w a [] c = c
put_words w a (v ∷ vs) c = put_words w (a + w) vs (put_word w a v c)

unfoldable pub get_words : ℕ → ℕ → ℕ → Contents → List ℕ
get_words w a zero c = []
get_words w a (suc n) c = get_word w a c ∷ get_words w (a + w) n c
