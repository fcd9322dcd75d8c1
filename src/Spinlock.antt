-- ===== src/Spinlock.antt =====
-- kernel/spinlock.c: locks, and the interrupts of the processor that holds them.
pub mod Nesting
mod Tests
use raid_system.Prelude.{
  ◌>>=◌, ℕ, suc, ◌-◌, Bool, true, false, not, ◌&&◌, Option, none, some, ltb, ◌==◌, if◌then◌else◌,
}

-- The part of struct cpu that the locks use, and whether interrupts are on. `noff` is far below
-- the limit of int.
pub record Cpu : Type 0 where
  pub interrupts : Bool
  pub noff : ℕ
  pub intena : Bool

-- struct spinlock; `cpu` is the number of the processor, or none for a null pointer.
pub record Spinlock : Type 0 where
  pub locked : Bool
  pub cpu : Option ℕ

abbrev pub initlock : Spinlock
initlock = record { locked = false; cpu = none }

abbrev pub is_cpu : Option ℕ → ℕ → Bool
is_cpu none me = false
is_cpu (some i) me = i == me

unfoldable pub holding : ℕ → Spinlock → Bool
holding me lk = lk.locked && is_cpu lk.cpu me

unfoldable pub push_off : Cpu → Cpu
push_off c = record {
  interrupts = false;
  noff = suc c.noff;
  intena = if c.noff == 0 then c.interrupts else c.intena;
}

unfoldable pub pop_off : Cpu → Option Cpu
pop_off c =
    if c.interrupts
    then none
    else if ltb c.noff 1
    then none
    else some (record {
      interrupts = (c.noff - 1 == 0) && c.intena;
      noff = c.noff - 1;
      intena = c.intena;
    })

-- Up to the first test of the lock: `false` is a lock that another processor holds, for which
-- the loop goes on.
unfoldable pub acquire : ℕ → Spinlock → Cpu → Option (Bool × Spinlock × Cpu)
unfolding push_off holding
acquire me lk c =
    if holding me lk
    then none
    else if lk.locked
    then some (false, lk, push_off c)
    else some (true, record { locked = true; cpu = some me }, push_off c)

unfoldable pub release : ℕ → Spinlock → Cpu → Option (Spinlock × Cpu)
unfolding pop_off holding
release me lk c =
    if holding me lk
    then (do c' ← pop_off c; some (record { locked = false; cpu = none }, c'))
    else none
