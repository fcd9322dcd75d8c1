-- ===== src/Process/Killed.antt =====
-- `kill` of kernel/proc.c of the number that stands for no process.
use raid_system.Prelude.{
  ℕ, zero, suc, ◌<◌, ◌≡◌, ◌≢◌, refl, sym, ◌∙◌, subst, ap, arith, Bool, true, false, some, lt→ltb,
  ◌==◌, update_self, inl, inr, Bool-cases, ==_eq, ==_ne,
}
use raid_system.Process.{
  ProcState, unused, used, is_unused, is_sleeping, Proc, Kernel, set_proc, allocpid, find_unused,
  start_proc, allocproc, nproc, kill, find_pid, killed_proc,
}
use raid_system.Process.Keeps.{kill-Keeps}
use raid_system.Process.Step.Start.{find_unused-some}
use raid_system.Process.Step.Sound.{IsSound}

unused-pid : (i : ℕ) (k : Kernel) → IsSound k → ((k.proc i).pid == 0) ≡ is_unused (k.proc i).state
unused-pid i k s = elim (Bool-cases (is_unused (k.proc i).state)) [
  | inl u ↦ ==_eq (k.proc i).pid 0 (s.free i u) ∙ sym u
  | inr u ↦ ==_ne (k.proc i).pid 0 (λ e. absurd (omega (arith, s.positive i u))) ∙ sym u
]

find_pid-zero : (n i : ℕ) (k : Kernel) → IsSound k → find_pid 0 n i k ≡ find_unused n i k
unfolding find_pid find_unused
find_pid-zero zero i k s = refl
find_pid-zero (suc n) i k s = elim (Bool-cases (is_unused (k.proc i).state)) [
  | inl u ↦ rw (unused-pid i k s ∙ u, u, find_pid, find_unused) refl
  | inr u ↦ rw (unused-pid i k s ∙ u, u, find_pid, find_unused) (find_pid-zero n (suc i) k s)
]

-- The search reads nothing but which processes are in use.
find_unused-same :
    (n i : ℕ) (k k' : Kernel)
    → ((j : ℕ) → is_unused (k'.proc j).state ≡ is_unused (k.proc j).state)
    → find_unused n i k' ≡ find_unused n i k
unfolding find_unused
find_unused-same zero i k k' same = refl
find_unused-same (suc n) i k k' same = elim (Bool-cases (is_unused (k.proc i).state)) [
  | inl u ↦ rw (same i ∙ u, u, find_unused) refl
  | inr u ↦ rw (same i ∙ u, u, find_unused) (find_unused-same n (suc i) k k' same)
]

idle-sleeping : (s : ProcState) → is_unused s ≡ true → is_sleeping s ≡ false
idle-sleeping unused e = refl
idle-sleeping used e = cc
idle-sleeping ProcState.sleeping e = cc
idle-sleeping ProcState.runnable e = cc
idle-sleeping ProcState.running e = cc
idle-sleeping ProcState.zombie e = cc

kill-found :
    (pid i : ℕ) (k : Kernel)
    → find_pid pid nproc 0 k ≡ some i
    → kill pid k ≡ (true, set_proc i (killed_proc (k.proc i)) k)
unfolding kill
kill-found pid i k e = rw (e, kill) refl

allocproc-found :
    (trapframe pagetable i : ℕ) (k : Kernel)
    → find_unused nproc 0 k ≡ some i
    → allocproc trapframe pagetable k ≡ start_proc trapframe pagetable i k
unfolding allocproc
allocproc-found trapframe pagetable i k e = rw (e, allocproc) refl

started : ℕ → ℕ → ℕ → Kernel → Proc
started trapframe pagetable i k = record (k.proc i) {
  pid = k.nextpid;
  state = used;
  trapframe = trapframe;
  pagetable = pagetable;
}

start_proc-some :
    (trapframe pagetable i : ℕ) (k : Kernel)
    → trapframe ≢ 0
    → pagetable ≢ 0
    → suc k.nextpid < 2147483648
    → start_proc trapframe pagetable i k
      ≡ some (
        some i,
        set_proc i (started trapframe pagetable i k) (record k { nextpid = suc k.nextpid }),
      )
unfolding started start_proc allocpid
start_proc-some trapframe pagetable i k tf pt small =
    rw (lt→ltb (suc k.nextpid) 2147483648 small, ==_ne trapframe 0 tf, ==_ne pagetable 0 pt) refl

-- `kill` of 0, the number of the entries that no process uses, succeeds where an entry is free.
-- The next process that `allocproc` makes, with memory for it, takes that entry and is killed
-- from the start.
pub allocproc-kill :
    (trapframe pagetable i : ℕ) (k : Kernel)
    → IsSound k
    → find_unused nproc 0 k ≡ some i
    → trapframe ≢ 0
    → pagetable ≢ 0
    → suc k.nextpid < 2147483648
    → (k' : Kernel) × ((kill 0 k).0 ≡ true)
      × (allocproc trapframe pagetable (kill 0 k).1 ≡ some (some i, k'))
      × ((k'.proc i).killed ≡ true)
unfolding started
allocproc-kill trapframe pagetable i k s room tf pt small =
    let found = find_pid-zero nproc 0 k s ∙ room in
    let p : Proc = record (k.proc i) { killed = true } in
    let k₁ = set_proc i p k in
    let asleep = idle-sleeping (k.proc i).state (find_unused-some nproc 0 i k room) in
    let killed : kill 0 k ≡ (true, k₁) = kill-found 0 i k found ∙ rw asleep refl in
    let same : find_unused nproc 0 k₁ ≡ some i =
      subst (λ (x : Kernel). find_unused nproc 0 x ≡ some i)
        (ap (λ (r : Bool × Kernel). r.1) killed)
        (find_unused-same nproc 0 k (kill 0 k).1 (λ j. (kill-Keeps 0 k).in_use j) ∙ room) in
    let q = started trapframe pagetable i k₁ in
    (
      set_proc i q (record k₁ { nextpid = suc k.nextpid }),
      rw killed refl,
      rw killed (
          allocproc-found trapframe pagetable i k₁ same
          ∙ start_proc-some trapframe pagetable i k₁ tf pt small),
      ap (λ (x : Proc). x.killed) (update_self k₁.proc i q)
          ∙ ap (λ (x : Proc). x.killed) (update_self k.proc i p),
    )
