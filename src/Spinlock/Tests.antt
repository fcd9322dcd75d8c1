-- ===== src/Spinlock/Tests.antt =====
-- Two processors and one lock.
use raid_system.Prelude.{◌≡◌, refl, arith, true, false, some, none}
use raid_system.Spinlock.{Cpu, Spinlock, initlock, acquire, release}
use raid_system.Spinlock.Nesting.{release-acquire}

abbrev running : Cpu
running = record { interrupts = true; noff = 0; intena = false }

abbrev nested : Cpu
nested = record { interrupts = false; noff = 1; intena = true }

release-acquire_example :
    (lk : Spinlock) × (c' : Cpu) × (d' : Cpu) × (c'' : Cpu) × (acquire 1 initlock nested
      ≡ some (true, lk, c'))
    × (c'.interrupts ≡ false)
    × (acquire 1 lk c' ≡ none)
    × (acquire 2 lk running ≡ some (false, lk, d'))
    × (release 1 lk c' ≡ some (initlock, c''))
    × (c''.interrupts ≡ false)
    × (c''.noff ≡ 1)
release-acquire_example = release-acquire 1 2 nested running (λ h. refl) (λ e. absurd (omega arith))
