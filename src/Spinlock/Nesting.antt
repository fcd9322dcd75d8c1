-- ===== src/Spinlock/Nesting.antt =====
-- `acquire` and `release` of kernel/spinlock.c, one within the other.
use raid_system.Prelude.{
  ℕ, suc, ◌-◌, ◌<◌, ◌≡◌, ◌≢◌, refl, arith, true, false, none, some, ==_refl, ==_ne, ==_eq, ◌==◌,
  le→ltb, ◌&&◌, if◌then◌else◌, sym,
}
use native.Mathlib.Decide.{ℕ_discrete}
use raid_system.Spinlock.{Cpu, Spinlock, initlock, holding, push_off, pop_off, acquire, release}

-- A processor that holds a lock has its interrupts off.
abbrev pub IsGuarded : Cpu → Type 0
IsGuarded c = 0 < c.noff → c.interrupts ≡ false

-- What `pop_off` leaves after `push_off`.
record Restores (c : Cpu) : Type 0 where
  out : Cpu
  returns : pop_off (push_off c) ≡ some out
  interrupts : out.interrupts ≡ c.interrupts
  noff : out.noff ≡ c.noff

push_off-Restores : (c : Cpu) → IsGuarded c → Restores c
unfolding push_off pop_off
push_off-Restores c guarded =
    let same : suc c.noff - 1 ≡ c.noff = omega arith in
    record {
      out = record {
        interrupts = (suc c.noff - 1 == 0) && (if c.noff == 0 then c.interrupts else c.intena);
        noff = suc c.noff - 1;
        intena = if c.noff == 0 then c.interrupts else c.intena;
      };
      returns = rw (le→ltb (suc c.noff) 1 (omega arith)) refl;
      interrupts = elim (ℕ_discrete c.noff 0) [
        | yes e ↦ rw (same, ==_eq c.noff 0 e) refl
        | no ne ↦ rw (same, ==_ne c.noff 0 ne) (sym (guarded (omega arith)))
      ];
      noff = same;
    }

interrupts-push_off : (c : Cpu) → (push_off c).interrupts ≡ false
unfolding push_off
interrupts-push_off c = refl

-- A processor that takes a free lock runs with interrupts off; taking it again panics, and
-- another processor that tries finds it taken. Releasing it frees the lock and brings back the
-- interrupts and the depth of nesting from before.
pub release-acquire :
    (me other : ℕ) (c d : Cpu)
    → IsGuarded c
    → other ≢ me
    → (lk : Spinlock) × (c' : Cpu) × (d' : Cpu) × (c'' : Cpu) × (acquire me initlock c
        ≡ some (true, lk, c'))
      × (c'.interrupts ≡ false)
      × (acquire me lk c' ≡ none)
      × (acquire other lk d ≡ some (false, lk, d'))
      × (release me lk c' ≡ some (initlock, c''))
      × (c''.interrupts ≡ c.interrupts)
      × (c''.noff ≡ c.noff)
unfolding acquire release holding
release-acquire me other c d guarded differ =
    let r = push_off-Restores c guarded in
    (
      record { locked = true; cpu = some me },
      push_off c,
      push_off d,
      r.out,
      refl,
      interrupts-push_off c,
      rw (==_refl me) refl,
      rw (==_ne me other (λ e. differ (sym e))) refl,
      rw (==_refl me, r.returns) refl,
      r.interrupts,
      r.noff,
    )
