-- ===== src/Fs/Content/Chunk.antt =====
-- What a round of `readi` or `writei` of kernel/fs.c copies.
use raid_system.Prelude.{
  ℕ, zero, suc, ◌+◌, ◌-◌, ◌≤◌, ◌<◌, ◌≡◌, refl, ◌∙◌, arith, inl, inr, ◌⊎◌, update, update_self,
  update_ne,
}
use native.Mathlib.Decide.{ℕ_discrete}
use raid_system.Memory.{Bytes}
use raid_system.Fs.Content.{min, copy_between}

-- The bytes from `d` on are those of another block or memory from `s` on, the others stay.
pub record Copies (d s n : ℕ) (from to out : Bytes) : Type 0 where
  pub moved : (k : ℕ) → k < n → out (d + k) ≡ from (s + k)
  pub others : (a : ℕ) → (a < d) ⊎ (d + n ≤ a) → out a ≡ to a

pub copy_between-Copies :
    (n d s : ℕ) (from to : Bytes) → Copies d s n from to (copy_between d s n from to)
unfolding copy_between
copy_between-Copies zero d s from to = record {
  moved = λ k h. absurd (omega arith);
  others = λ a h. refl;
}
copy_between-Copies (suc n) d s from to =
    let r = copy_between-Copies n (suc d) (suc s) from (update to d (from s)) in
    record {
      moved = λ k h. elim (ℕ_discrete 0 k) [
        | yes z ↦
            let e : d + k ≡ d = omega arith in
            let e' : s + k ≡ s = omega arith in
            rw (e, e') (r.others d (inl (omega arith)) ∙ update_self to d (from s))
        | no ne ↦
            let e : d + k ≡ suc d + (k - 1) = omega arith in
            let e' : s + k ≡ suc s + (k - 1) = omega arith in
            rw (e, e') (r.moved (k - 1) (omega arith))
      ];
      others = λ a h.
          r.others a (elim h [ inl l ↦ inl (omega arith) | inr l ↦ inr (omega arith) ])
          ∙ update_ne to d a (from s) (elim h [ inl l ↦ omega arith | inr l ↦ omega arith ]);
    }

pub min-le : (a b : ℕ) → (min a b ≤ a) × (min a b ≤ b)
min-le a b = ground arith

pub min-pos : (a b : ℕ) → 0 < a → 0 < b → 0 < min a b
min-pos a b ha hb = ground arith
