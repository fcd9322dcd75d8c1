-- ===== src/Process/Tests.antt =====
-- Tables of processes with one or two entries in use.
use raid_system.Prelude.{◌≡◌, refl, arith, true, some, pos, update}
use raid_system.Process.{
  ProcState, runnable, running, address, Proc, Kernel, allocproc, find_unused, start_proc, allocpid,
  wakeup, sleep, kill, freeproc,
}
use raid_system.Process.Family.{exit, wait, child}
use raid_system.Process.Family.Exit.{Exits, exit-Exits}
use raid_system.Process.Family.Reap.{wait-exit}
use raid_system.Process.Wakeup.{wakeup-sleep}
use raid_system.Process.Killed.{allocproc-kill}
use raid_system.Process.Step.{here, next, allocates, no_proc, procinit}
use raid_system.Process.Step.Sound.{IsSound}
use raid_system.Process.Step.Always.{procinit-IsSound, Reach-IsSound}

abbrev first_proc : Proc
first_proc = record no_proc { pid = 1; state = ProcState.used; trapframe = 4096; pagetable = 8192 }

abbrev one_proc : Kernel
one_proc = record procinit { proc = update procinit.proc 0 first_proc; nextpid = 2 }

-- Process 1 is the first one, and process 0 its child; both run.
abbrev family : Kernel
family = record {
  proc =
      update (update procinit.proc 0 (record no_proc { pid = 2; state = running; parent = some 1 }))
        1 (record no_proc { pid = 1; state = running });
  nextpid = 3;
  initproc = 1;
  cpu = update (update procinit.cpu 0 (some 0)) 1 (some 1);
}

Reach-IsSound_example : IsSound one_proc
unfolding allocproc find_unused start_proc allocpid
Reach-IsSound_example = Reach-IsSound one_proc (next here (allocates 4096 8192 (some 0) refl))

wakeup-sleep_example :
    ((wakeup (address 7) 1 (sleep 0 0 (address 7) family)).proc 0).state ≡ runnable
wakeup-sleep_example =
    wakeup-sleep 0 0 1 (address 7) family (sleep 0 0 (address 7) family) (omega arith)
      (λ e. absurd (omega arith)) refl

exit-Exits_example :
    (k' : Kernel) × (exit 0 0 (pos 5) family ≡ some k') × Exits 0 0 (pos 5) family k'
exit-Exits_example = exit-Exits 0 0 (pos 5) family (λ e. absurd (omega arith))

gone : (k' : Kernel) × (exit 0 0 (pos 5) family ≡ some k') × Exits 0 0 (pos 5) family k'
gone = exit-Exits 0 0 (pos 5) family (λ e. absurd (omega arith))

wait-exit_example : wait 1 1 true gone.0 ≡ (child 2 (pos 5), freeproc 0 gone.0)
wait-exit_example =
    wait-exit 0 1 0 1 (pos 5) family gone.0 (λ e. absurd (omega arith)) (omega arith) refl
      (λ e. absurd (omega arith)) gone.1 (λ l h. absurd (omega arith))

allocproc-kill_example :
    (k' : Kernel) × ((kill 0 procinit).0 ≡ true)
    × (allocproc 4096 8192 (kill 0 procinit).1 ≡ some (some 0, k'))
    × ((k'.proc 0).killed ≡ true)
unfolding find_unused
allocproc-kill_example =
    allocproc-kill 4096 8192 0 procinit procinit-IsSound refl (λ e. absurd (omega arith))
      (λ e. absurd (omega arith)) (omega arith)
