-- ===== src/Memory/Move.antt =====
-- `memmove` of kernel/string.c, with and without an overlap.
use native.Mathlib.Decide.{ℕ_discrete}
use raid_system.Prelude.{
  ℕ, zero, suc, ◌+◌, ◌≤◌, ◌<◌, ◌≡◌, refl, subst, ◌∙◌, arith, true, false, ltb, ◌&&◌, update,
  update_self, ==_ne, ◌==◌, ◌-◌, update_ne, ◌⊎◌, inl, inr,
}
use raid_system.Memory.{Bytes, move_down, move_up, memmove}

-- The bytes from `d` on are those that were at `s`, and the others are as they were.
pub record Moves (d s n : ℕ) (m m' : Bytes) : Type 0 where
  pub moved : (k : ℕ) → k < n → m' (d + k) ≡ m (s + k)
  pub others : (a : ℕ) → (a < d) ⊎ (d + n ≤ a) → m' a ≡ m a

module _ (d s : ℕ) where
  move_down-Moves : (n : ℕ) (m : Bytes) → s < d → Moves d s n m (move_down d s n m)
  unfolding move_down
  move_down-Moves zero m before = record {
    moved = λ k h. absurd (omega arith);
    others = λ a h. refl;
  }
  move_down-Moves (suc n) m before =
      let m' : Bytes = update m (d + n) (m (s + n)) in
      let r = move_down-Moves n m' before in
      record {
        moved = λ k h. elim (ℕ_discrete n k) [
          | yes e ↦
              subst (λ x. move_down d s n m' (d + x) ≡ m (s + x)) e
                (r.others (d + n) (inr (omega arith)) ∙ update_self m (d + n) (m (s + n)))
          | no ne ↦ r.moved k (omega arith) ∙ update_ne m (d + n) (s + k) (m (s + n)) (omega arith)
        ];
        others = λ a h.
            r.others a (elim h [ inl l ↦ inl l | inr l ↦ inr (omega arith) ])
            ∙ update_ne m (d + n) a (m (s + n))
                (elim h [ inl l ↦ omega arith | inr l ↦ omega arith ]);
      }

move_up-Moves : (n d s : ℕ) (m : Bytes) → (d ≤ s) ⊎ (s + n ≤ d) → Moves d s n m (move_up d s n m)
unfolding move_up
move_up-Moves zero d s m apart = record {
  moved = λ k h. absurd (omega arith);
  others = λ a h. refl;
}
move_up-Moves (suc n) d s m apart =
    let m' : Bytes = update m d (m s) in
    let r =
      move_up-Moves n (suc d) (suc s) m'
        (elim apart [ inl l ↦ inl (omega arith) | inr l ↦ inr (omega arith) ]) in
    record {
      moved = λ k h. elim (ℕ_discrete 0 k) [
        | yes z ↦
            let e : d + k ≡ d = omega arith in
            let e' : s + k ≡ s = omega arith in
            rw (e, e') (r.others d (inl (omega arith)) ∙ update_self m d (m s))
        | no ne ↦
            let e : d + k ≡ suc d + (k - 1) = omega arith in
            let e' : s + k ≡ suc s + (k - 1) = omega arith in
            rw (e, e')
              (r.moved (k - 1) (omega arith)
                ∙ update_ne m d (suc s + (k - 1)) (m s)
                    (elim apart [ inl l ↦ omega arith | inr l ↦ omega arith ]))
      ];
      others = λ a h.
          r.others a (elim h [ inl l ↦ inl (omega arith) | inr l ↦ inr (omega arith) ])
          ∙ update_ne m d a (m s) (elim h [ inl l ↦ omega arith | inr l ↦ omega arith ]);
    }

overlap-cases :
    (d s n : ℕ)
    → (((ltb s d && ltb d (s + n)) ≡ true) × (s < d))
      ⊎ (((ltb s d && ltb d (s + n)) ≡ false) × ((d ≤ s) ⊎ (s + n ≤ d)))
overlap-cases d s n = ground arith

-- `memmove` puts at `dst` the `n` bytes that were at `src` before, and changes no other byte,
-- however the two ranges overlap.
pub memmove-Moves : (d s n : ℕ) (m : Bytes) → Moves d s n m (memmove d s n m)
unfolding memmove
memmove-Moves d s zero m = record { moved = λ k h. absurd (omega arith); others = λ a h. refl }
memmove-Moves d s (suc n) m =
    let some_bytes : (suc n == 0) ≡ false = ==_ne (suc n) 0 (omega arith) in
    elim (overlap-cases d s (suc n)) [
      | inl (e, before) ↦ rw (some_bytes, e) (move_down-Moves d s (suc n) m before)
      | inr (e, apart) ↦ rw (some_bytes, e) (move_up-Moves (suc n) d s m apart)
    ]
