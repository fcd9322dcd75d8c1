-- ===== src/Bcache/Tests.antt =====
-- A cache behind `binit`, on a disk whose block `b` has all bytes `b`.
use raid_system.Prelude.{ℕ, ◌≡◌, refl, arith, some}
use raid_system.Log.Store.{Contents, copy_to}
use raid_system.Log.Store
use raid_system.Bcache.{Bcache, binit, bread}
use raid_system.Bcache.Coherent.{contents, IsCoherent}
use raid_system.Bcache.Read.{Reads, bread-Reads}
use raid_system.Bcache.Write.{write_through, view, write_through-view}
use raid_system.Bcache.Init.{binit-IsCoherent}

abbrev platter : ℕ → Contents
platter b i = b

abbrev fives : Contents
fives i = 5

abbrev no_pins : ℕ → ℕ
no_pins c = 0

start-IsCoherent :
    IsCoherent 1 (binit platter) × ((c : ℕ) → contents 1 c (binit platter) ≡ platter c)
start-IsCoherent = binit-IsCoherent 1 platter (λ e. absurd (omega arith))

bread-Reads_example : Reads 1 7 (binit platter) (bread 1 7 (binit platter))
unfolding binit
bread-Reads_example =
    bread-Reads 1 7 (binit platter) start-IsCoherent.0 3 (start-IsCoherent.0.listed 3 (omega arith))
      refl

write_through-view_example :
    (t : Bcache) × (write_through 1 7 fives (binit platter) ≡ some t)
    × IsCoherent 1 t
    × (view 1 no_pins t ≡ Store.bwrite 7 (copy_to 7 fives (view 1 no_pins (binit platter))))
unfolding binit
write_through-view_example =
    write_through-view 1 7 fives (binit platter) start-IsCoherent.0 no_pins 3
      (start-IsCoherent.0.listed 3 (omega arith)) refl
