-- ===== src/Process/Step/Always.antt =====
-- Every step of the table of kernel/proc.c keeps it sound.
use raid_system.Prelude.{
  ℕ, ◌≡◌, refl, subst, arith, Bool, false, some, inl, inr, Bool-cases, Option-cases,
}
use raid_system.Process.Keeps.{
  kill-Keeps, setkilled-Keeps, tidy_up-Keeps, fork_copy-Keeps, fork_parent-Keeps, fork_ready-Keeps,
}
use raid_system.Process.Family.{fork_copy, fork_parent, fork_ready, wait}
use raid_system.Process.Step.{
  Step, allocates, abandons, copies, adopts, readies, wakes, kills, marks, schedules, yields,
  sleeps, tidies, exits, waits, Reach, here, next, procinit,
}
use raid_system.Process.{
  sleep, yield, kill, setkilled, tidy_up, wakeup, sleeping, runnable, at_proc, Chan,
}
use raid_system.Process.Step.Sound.{schedule-IsSound}
use raid_system.Prelude.{not, ◌||◌}
use raid_system.Process.{sleeping, runnable, Kernel, nproc, wakeup}
use raid_system.Process.Keeps.{wakeup-Keeps}
use raid_system.Process.Family.{scan_children}
use raid_system.Process.Step.Sound.{IsSound, Keeps-IsSound, switch-IsSound}
use raid_system.Process.Step.Start.{
  freeproc-IsSound, Ensures, allocproc-Ensures, EnsuresExit, exit-EnsuresExit, scan_children-zombie,
}

yield-IsSound : (c i : ℕ) (k : Kernel) → IsSound k → k.cpu c ≡ some i → IsSound (yield c i k)
unfolding yield
yield-IsSound c i k s on =
    switch-IsSound c i (record (k.proc i) { state = runnable }) k s on refl refl

sleep-IsSound :
    (c i : ℕ) (chan : Chan) (k : Kernel) → IsSound k → k.cpu c ≡ some i → IsSound (sleep c i chan k)
unfolding sleep
sleep-IsSound c i chan k s on =
    switch-IsSound c i (record (k.proc i) { chan = chan; state = sleeping }) k s on refl refl

wait-IsSound :
    (c i : ℕ) (copied : Bool) (k : Kernel)
    → IsSound k
    → k.cpu c ≡ some i
    → IsSound (wait c i copied k).1
unfolding wait
wait-IsSound c i copied k s on =
    let found = scan_children i nproc 0 false k in
    elim (Option-cases found.1) [
      | inr (pp, e) ↦ elim (Bool-cases copied) [
        | inl w ↦
            let z = scan_children-zombie i nproc 0 pp false k e in
            rw (e, w, wait) (freeproc-IsSound pp k s (λ r. absurd (cc)))
        | inr w ↦ rw (e, w, wait) s
      ]
      | inl e ↦ elim (Bool-cases (not found.0 || (k.proc i).killed)) [
        | inl g ↦ rw (e, g, wait) s
        | inr g ↦ rw (e, g, wait) (sleep-IsSound c i (at_proc i) k s on)
      ]
    ]

-- Whatever a kernel does to its table in one critical section, processes in use keep different
-- positive numbers that were handed out before, and what a processor has is a process that runs,
-- and runs on no other processor.
pub Step-IsSound : (k k' : Kernel) → IsSound k → Step k k' → IsSound k'
Step-IsSound k k' s (allocates trapframe pagetable r e) =
    subst Ensures e (allocproc-Ensures trapframe pagetable k s)
Step-IsSound k k' s (abandons np u e) = rw e (freeproc-IsSound np k s (λ r. absurd (cc)))
Step-IsSound k k' s (copies i np e) =
    rw e (Keeps-IsSound k (fork_copy i np k) (fork_copy-Keeps i np k) s)
Step-IsSound k k' s (adopts i np e) =
    rw e (Keeps-IsSound k (fork_parent i np k) (fork_parent-Keeps i np k) s)
Step-IsSound k k' s (readies np u e) =
    rw e (Keeps-IsSound k (fork_ready np k) (fork_ready-Keeps np k u) s)
Step-IsSound k k' s (wakes chan me e) =
    rw e (Keeps-IsSound k (wakeup chan me k) (wakeup-Keeps chan me k) s)
Step-IsSound k k' s (kills pid e) = rw e (Keeps-IsSound k (kill pid k).1 (kill-Keeps pid k) s)
Step-IsSound k k' s (marks i e) = rw e (Keeps-IsSound k (setkilled i k) (setkilled-Keeps i k) s)
Step-IsSound k k' s (schedules c i idle e) = rw e (schedule-IsSound c i k s idle)
Step-IsSound k k' s (yields c i on e) = rw e (yield-IsSound c i k s on)
Step-IsSound k k' s (sleeps c i chan on e) = rw e (sleep-IsSound c i chan k s on)
Step-IsSound k k' s (tidies c i on e) = rw e (Keeps-IsSound k (tidy_up i k) (tidy_up-Keeps i k) s)
Step-IsSound k k' s (exits c i status on e) =
    subst EnsuresExit e (exit-EnsuresExit c i status k s on)
Step-IsSound k k' s (waits c i copied on e) = rw e (wait-IsSound c i copied k s on)

pub procinit-IsSound : IsSound procinit
procinit-IsSound = record {
  free = λ i e. refl;
  positive = λ i e. absurd (cc);
  below = λ i. omega arith;
  distinct = λ i j e. absurd (cc);
  on_cpu = λ c i e. absurd (cc);
  one_cpu = λ c d i e. absurd (cc);
}

-- After any number of critical sections since `procinit`, of any processes and in any order,
-- processes in use have different positive numbers that were handed out before, entries that no
-- process uses have number 0, and what a processor has is a process that runs, and runs on no other
-- processor.
pub Reach-IsSound : (k : Kernel) → Reach procinit k → IsSound k
Reach-IsSound k here = procinit-IsSound
Reach-IsSound k (next {l} r st) = Step-IsSound l k (Reach-IsSound l r) st
