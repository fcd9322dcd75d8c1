-- ===== src/Memory.antt =====
-- kernel/string.c: the functions on bytes in memory, which is a function of addresses.
pub mod Move
mod Tests
use raid_system.Prelude.{
  ℕ, zero, suc, ◌+◌, ◌-◌, ◌%◌, ◌≤◌, ◌<◌, Bool, true, false, ◌&&◌, not, ltb, ◌==◌, if◌then◌else◌,
  update, ℤ, pos, negsuc,
}

abbrev pub Bytes : Type 0
Bytes = ℕ → ℕ

-- cdst[i] = c, for `n` indices from `i` on
unfoldable pub set_bytes : ℕ → ℕ → ℕ → ℕ → Bytes → Bytes
set_bytes cdst c zero i m = m
set_bytes cdst c (suc n) i m = set_bytes cdst c n (suc i) (update m (cdst + i) (c % 256))

unfoldable pub memset : ℕ → ℕ → ℕ → Bytes → Bytes
unfolding set_bytes
memset dst c n m = set_bytes dst c n 0 m

-- The difference of two bytes.
abbrev pub byte_difference : ℕ → ℕ → ℤ
byte_difference a b = if ltb a b then negsuc (b - a - 1) else pos (a - b)

unfoldable pub memcmp : ℕ → ℕ → ℕ → Bytes → ℤ
memcmp v1 v2 zero m = pos 0
memcmp v1 v2 (suc n) m = elim (m v1 == m v2) [
  | true ↦ memcmp (suc v1) (suc v2) n m
  | false ↦ byte_difference (m v1) (m v2)
]

-- while(n-- > 0) *--d = *--s, from behind the last bytes
unfoldable pub move_down : ℕ → ℕ → ℕ → Bytes → Bytes
move_down d s zero m = m
move_down d s (suc n) m = move_down d s n (update m (d + n) (m (s + n)))

-- while(n-- > 0) *d++ = *s++
unfoldable pub move_up : ℕ → ℕ → ℕ → Bytes → Bytes
move_up d s zero m = m
move_up d s (suc n) m = move_up (suc d) (suc s) n (update m d (m s))

unfoldable pub memmove : ℕ → ℕ → ℕ → Bytes → Bytes
unfolding move_down move_up
memmove dst src n m =
    if n == 0
    then m
    else if ltb src dst && ltb dst (src + n)
    then move_down dst src n m
    else move_up dst src n m

unfoldable pub memcpy : ℕ → ℕ → ℕ → Bytes → Bytes
unfolding memmove
memcpy dst src n m = memmove dst src n m

unfoldable pub strncmp : ℕ → ℕ → ℕ → Bytes → ℤ
strncmp p q zero m = pos 0
strncmp p q (suc n) m = elim (not (m p == 0) && (m p == m q)) [
  | true ↦ strncmp (suc p) (suc q) n m
  | false ↦ byte_difference (m p) (m q)
]

-- while(n-- > 0) *s++ = 0
unfoldable pub clear_bytes : ℕ → ℕ → Bytes → Bytes
clear_bytes s zero m = m
clear_bytes s (suc n) m = clear_bytes (suc s) n (update m s 0)

-- The loop tests the byte that it has just copied. A negative `n` does what 0 does.
unfoldable pub strncpy : ℕ → ℕ → ℕ → Bytes → Bytes
unfolding clear_bytes
strncpy s t zero m = m
strncpy s t (suc n) m = elim (m t == 0) [
  | true ↦ clear_bytes (suc s) n (update m s (m t))
  | false ↦ strncpy (suc s) (suc t) n (update m s (m t))
]

-- The loop of `safestrcpy`, in which `n` bytes are left besides the last, and the 0 behind it.
unfoldable pub copy_terminated : ℕ → ℕ → ℕ → Bytes → Bytes
copy_terminated s t zero m = update m s 0
copy_terminated s t (suc n) m = elim (m t == 0) [
  | true ↦ update (update m s (m t)) (suc s) 0
  | false ↦ copy_terminated (suc s) (suc t) n (update m s (m t))
]

unfoldable pub safestrcpy : ℕ → ℕ → ℕ → Bytes → Bytes
unfolding copy_terminated
safestrcpy s t zero m = m
safestrcpy s t (suc n) m = copy_terminated s t n m
