-- ===== src/Kalloc/Tests.antt =====
-- The memory at the start, with the kernel ending within a page, and two pages at its top.
use raid_system.Prelude.{ℕ, ◌+◌, ◌-◌, ◌/◌, ◌≤◌, ◌<◌, ◌≡◌, refl, arith, some, [], ◌∷◌, ◌⊎◌}
use raid_system.Memory.{Bytes}
use raid_system.Kalloc.{pgsize, phystop, pg_round_up, Kmem, kfree, kalloc, kinit}
use raid_system.Kalloc.Free.{IsFree, Allocates, kfree-IsFree, kalloc-Allocates}
use raid_system.Kalloc.Init.{pages, kinit-IsFree}

abbrev zeros : Bytes
zeros a = 0

-- The end of the kernel
abbrev kernel_end : ℕ
kernel_end = 2147620000

kinit-IsFree_example :
    (t : Kmem) × (kinit kernel_end zeros ≡ some t)
    × IsFree kernel_end t
        (pages ((phystop - pg_round_up kernel_end) / pgsize) (pg_round_up kernel_end) [])
kinit-IsFree_example = kinit-IsFree kernel_end zeros (omega arith) (omega arith)

abbrev one_page : Kmem
one_page = record { freelist = 2147622912; memory = zeros }

one_page-IsFree : IsFree kernel_end one_page (2147622912 ∷ [])
one_page-IsFree = (refl, (refl, omega arith, omega arith), tt, refl)

kalloc-Allocates_example : Allocates kernel_end (2147622912 ∷ []) one_page (kalloc one_page)
kalloc-Allocates_example =
    kalloc-Allocates kernel_end (2147622912 ∷ []) one_page (omega arith) one_page-IsFree

kfree-IsFree_example :
    (t : Kmem) × (kfree kernel_end 2147627008 one_page ≡ some t)
    × IsFree kernel_end t (2147627008 ∷ 2147622912 ∷ [])
    × ((a : ℕ) → (a < 2147627008) ⊎ (2147627008 + pgsize ≤ a) → t.memory a ≡ zeros a)
kfree-IsFree_example =
    kfree-IsFree kernel_end 2147627008 (2147622912 ∷ []) one_page (omega arith) one_page-IsFree
      (refl, omega arith, omega arith) (λ e. omega (arith, e), tt)
