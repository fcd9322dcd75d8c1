-- ===== src/Process/Step.antt =====
-- What can happen to the table of kernel/proc.c, one critical section at a time and in any order,
-- on any number of processors.
pub mod Sound
pub mod Start
pub mod Always
use raid_system.Prelude.{ℕ, zero, suc, ◌≡◌, Bool, Option, none, some, ℤ, pos}
use raid_system.Process.{
  unused, used, zombie, running, Chan, Proc, Kernel, allocproc, freeproc, wakeup, kill, setkilled,
  schedule, yield, sleep, tidy_up,
}
use raid_system.Process.Family.{fork_copy, fork_parent, fork_ready, exit, wait}

-- A premise says on which processor the caller runs, or that it works on the child that it has
-- just made.
pub data Step (k k' : Kernel) : Type 0 where
  allocates :
      (trapframe pagetable : ℕ) (r : Option ℕ)
      → allocproc trapframe pagetable k ≡ some (r, k')
      → Step k k'
  abandons : (np : ℕ) → (k.proc np).state ≡ used → k' ≡ freeproc np k → Step k k'
  copies : (i np : ℕ) → k' ≡ fork_copy i np k → Step k k'
  adopts : (i np : ℕ) → k' ≡ fork_parent i np k → Step k k'
  readies : (np : ℕ) → (k.proc np).state ≡ used → k' ≡ fork_ready np k → Step k k'
  wakes : (chan : Chan) (me : ℕ) → k' ≡ wakeup chan me k → Step k k'
  kills : (pid : ℕ) → k' ≡ (kill pid k).1 → Step k k'
  marks : (i : ℕ) → k' ≡ setkilled i k → Step k k'
  schedules : (c i : ℕ) → k.cpu c ≡ none → k' ≡ schedule c i k → Step k k'
  yields : (c i : ℕ) → k.cpu c ≡ some i → k' ≡ yield c i k → Step k k'
  sleeps : (c i : ℕ) (chan : Chan) → k.cpu c ≡ some i → k' ≡ sleep c i chan k → Step k k'
  tidies : (c i : ℕ) → k.cpu c ≡ some i → k' ≡ tidy_up i k → Step k k'
  exits : (c i : ℕ) (status : ℤ) → k.cpu c ≡ some i → exit c i status k ≡ some k' → Step k k'
  waits : (c i : ℕ) (copied : Bool) → k.cpu c ≡ some i → k' ≡ (wait c i copied k).1 → Step k k'

pub data Reach (k : Kernel) : Kernel → Type 0 where
  here : Reach k k
  next : {l m : Kernel} → Reach k l → Step l m → Reach k m

-- The table as `procinit` finds and leaves it: zeros.
abbrev pub no_proc : Proc
no_proc = record {
  state = unused;
  chan = Chan.null;
  killed = Bool.false;
  xstate = pos 0;
  pid = 0;
  parent = none;
  sz = 0;
  pagetable = 0;
  trapframe = 0;
}

abbrev pub procinit : Kernel
procinit = record { proc = λ i. no_proc; nextpid = 1; initproc = 0; cpu = λ c. none }
