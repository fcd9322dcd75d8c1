-- ===== src/Fs/Alloc/Search.antt =====
-- The search for a free bit, and what `mark` and `write_logged` of kernel/fs.c change.
use native.Mathlib.Decide.{ℕ_discrete}
use raid_system.Prelude.{
  ℕ, zero, suc, ◌+◌, ◌/◌, ◌%◌, ◌^◌, ◌≤◌, ◌<◌, ◌≡◌, ◌≢◌, refl, subst, arith, true, false, Option,
  none, some, ◌==◌, if◌then◌else◌, ==_ne, ==_eq, inl, inr, Bool-cases, update, update_self,
  update_ne,
}
use raid_system.Log.{Log}
use raid_system.Log.Store.{Contents, copy_to}
use raid_system.Log.Room.{HasRoom, log_write-Logs}
use raid_system.Fs.{write_logged}
use raid_system.Fs.Alloc.{is_free, mark, find_free}
use raid_system.Fs.Alloc.Bits.{set_bit, set_bit_ne}

free-zero : (c : Contents) (bi : ℕ) → is_free c bi ≡ true → c (bi / 8) / 2 ^ (bi % 8) % 2 ≡ 0
free-zero c bi h = ground arith

-- Marking a free block changes its own bit and no other.
pub is_free-mark :
    (c : Contents) (bi bj : ℕ)
    → is_free c bi ≡ true
    → is_free (mark c bi) bj ≡ (if bi == bj then false else is_free c bj)
is_free-mark c bi bj h =
    let z = free-zero c bi h in
    let byte = c (bi / 8) + 2 ^ (bi % 8) in
    elim (ℕ_discrete bi bj) [
      | yes e ↦
          let here : mark c bi (bi / 8) ≡ byte = update_self c (bi / 8) byte in
          let set = set_bit (bi % 8) (omega arith) (c (bi / 8)) z in
          let own : is_free (mark c bi) bi ≡ false =
            rw here (==_ne (byte / 2 ^ (bi % 8) % 2) 0 (λ w. absurd (omega (arith, set)))) in
          rw (==_eq bi bj e) (subst (λ x. is_free (mark c bi) x ≡ false) e own)
      | no ne ↦ elim (ℕ_discrete (bi / 8) (bj / 8)) [
        | no far ↦ rw (==_ne bi bj ne, update_ne c (bi / 8) (bj / 8) byte far) refl
        | yes near ↦
            let apart : bi % 8 ≢ bj % 8 = λ w. ne (omega arith) in
            let here : mark c bi (bj / 8) ≡ byte =
              subst (λ x. mark c bi x ≡ byte) near (update_self c (bi / 8) byte) in
            let same =
              set_bit_ne (bi % 8) (bj % 8) (c (bi / 8)) (omega arith) (omega arith) apart z in
            rw (==_ne bi bj ne, here, same, near) refl
      ]
    ]

pub find_free-some :
    (c : Contents) (n bi j : ℕ)
    → find_free c n bi ≡ some j
    → (bi ≤ j) × (j < bi + n) × (is_free c j ≡ true)
unfolding find_free
find_free-some c zero bi j e = cc
find_free-some c (suc n) bi j e = elim (Bool-cases (is_free c bi)) [
  | inl f ↦
      let same : some bi ≡ some j = rw (f, find_free) at e in
      let same' : bi ≡ j = cc in (omega arith, omega arith, subst (λ x. is_free c x ≡ true) same' f)
  | inr f ↦
      let r = find_free-some c n (suc bi) j (rw (f, find_free) at e) in
      (omega (arith, r.0), omega (arith, r.1), r.2)
]

pub find_free-none :
    (c : Contents) (n bi j : ℕ)
    → find_free c n bi ≡ none
    → bi ≤ j
    → j < bi + n
    → is_free c j ≡ false
unfolding find_free
find_free-none c zero bi j e lo hi = absurd (omega arith)
find_free-none c (suc n) bi j e lo hi = elim (Bool-cases (is_free c bi)) [
  | inl f ↦ let no_way : some bi ≡ none = rw (f, find_free) at e in cc
  | inr f ↦ elim (ℕ_discrete bi j) [
    | yes same ↦ subst (λ x. is_free c x ≡ false) same f
    | no ne ↦ find_free-none c n (suc bi) j (rw (f, find_free) at e) (omega arith) (omega arith)
  ]
]

-- A logged write succeeds while the log has room, and changes one buffer.
pub record Writes (s : Log) (blockno : ℕ) (v : Contents) (r : ℕ) (result : Option Log)
    : Type 0 where
  pub out : Log
  pub returns : result ≡ some out
  pub room : HasRoom out r
  pub buffers : out.buffers.buffer ≡ update s.buffers.buffer blockno v

pub write_logged-Writes :
    (s : Log) (blockno : ℕ) (v : Contents) (r : ℕ)
    → HasRoom s (suc r)
    → Writes s blockno v r (write_logged blockno v s)
unfolding write_logged
write_logged-Writes s blockno v r has =
    let changed : Log = record s { buffers = copy_to blockno v s.buffers } in
    let w = log_write-Logs changed blockno r (record {
      size_block = has.size_block;
      space = has.space;
      log_space = has.log_space;
      running = has.running;
    }) in
    record { out = w.out; returns = w.returns; room = w.room; buffers = w.same }
