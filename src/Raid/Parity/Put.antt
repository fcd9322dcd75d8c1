-- ===== src/Raid/Parity/Put.antt =====
-- A RAID 4 volume after a block was written.
use native.Mathlib.Decide.{ℕ_discrete}
use raid_system.Prelude.{
  ℕ, ◌≡◌, ◌≢◌, refl, sym, ◌∙◌, ap, subst, arith, ==_eq, ==_ne, ◌==◌, if◌then◌else◌,
}
use raid_system.Raid.State.{Block, zero_block}
use raid_system.Raid.Parity.Sum.{parity_of, sum_from_ext}
use raid_system.Raid.Parity.Volume.{Volume}

-- The data blocks of a stripe with block `d` replaced.
abbrev pub put_block : ℕ → Block → (ℕ → Block) → ℕ → Block
put_block d x f j = if j == d then x else f j

-- A volume of `n` data disks after `x` was written to stripe `b` of disk `d + 1`.
abbrev pub write_volume : ℕ → ℕ → ℕ → Block → Volume → Volume
write_volume n d b x v j b' =
    if b' == b
    then (if j == n then parity_of n (put_block d x (λ k. v k b)) else put_block d x (λ k. v k b) j)
    else v j b'

module _ (n d b : ℕ) (x : Block) (v : Volume) where
  pub write_volume-parity : write_volume n d b x v n b ≡ parity_of n (put_block d x (λ k. v k b))
  write_volume-parity = rw (==_eq b b refl, ==_eq n n refl)

  pub write_volume_self : d ≢ n → write_volume n d b x v d b ≡ x
  write_volume_self ne = rw (==_eq b b refl, ==_ne d n ne, ==_eq d d refl)

  pub write_volume-disk : (j b' : ℕ) → j ≢ n → j ≢ d → write_volume n d b x v j b' ≡ v j b'
  write_volume-disk j b' ne ne' = elim (ℕ_discrete b' b) [
    | yes e ↦ rw (==_eq b' b e, ==_ne j n ne, ==_ne j d ne', ap (v j) e)
    | no other ↦ rw (==_ne b' b other)
  ]

  pub write_volume-stripe : (j b' : ℕ) → b' ≢ b → write_volume n d b x v j b' ≡ v j b'
  write_volume-stripe j b' ne = rw (==_ne b' b ne)

  write_volume-data : (j : ℕ) → j ≢ n → write_volume n d b x v j b ≡ put_block d x (λ k. v k b) j
  write_volume-data j ne = rw (==_eq b b refl, ==_ne j n ne)

  pub write_volume-sums :
      ((b' : ℕ) → v n b' ≡ parity_of n (λ j. v j b'))
      → (b' : ℕ) → write_volume n d b x v n b' ≡ parity_of n (λ j. write_volume n d b x v j b')
  write_volume-sums sums b' = elim (ℕ_discrete b' b) [
    | yes e ↦
        subst (λ t. write_volume n d b x v n t ≡ parity_of n (λ j. write_volume n d b x v j t))
          (sym e)
          (write_volume-parity
            ∙ sum_from_ext (put_block d x (λ k. v k b)) (λ j. write_volume n d b x v j b) n 0
                zero_block (λ j h. sym (write_volume-data j (omega arith))))
    | no ne ↦
        write_volume-stripe n b' ne
        ∙ sums b'
        ∙ sum_from_ext (λ j. v j b') (λ j. write_volume n d b x v j b') n 0 zero_block
            (λ j h. sym (write_volume-stripe j b' ne))
  ]
