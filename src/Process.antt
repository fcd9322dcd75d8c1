-- ===== src/Process.antt =====
-- kernel/proc.c: the table of processes and what the kernel does to it under its locks. A pointer
-- to a process is its index in the table.
pub mod Family
pub mod Keeps
pub mod Wakeup
pub mod Killed
pub mod Step
mod Tests
use raid_system.Prelude.{
  ℕ, zero, suc, ◌+◌, Bool, true, false, not, ◌&&◌, Option, none, some, ◌>>=◌, ◌>>◌, guard, ltb,
  ◌==◌, if◌then◌else◌, update, ℤ, pos,
}

abbrev pub nproc : ℕ
nproc = 64

-- enum procstate
pub data ProcState : Type 0 where
  unused used sleeping runnable running zombie : ProcState

abbrev pub is_unused : ProcState → Bool
is_unused unused = true
is_unused used = false
is_unused sleeping = false
is_unused runnable = false
is_unused running = false
is_unused zombie = false

abbrev pub is_used : ProcState → Bool
is_used unused = false
is_used used = true
is_used sleeping = false
is_used runnable = false
is_used running = false
is_used zombie = false

abbrev pub is_sleeping : ProcState → Bool
is_sleeping unused = false
is_sleeping used = false
is_sleeping sleeping = true
is_sleeping runnable = false
is_sleeping running = false
is_sleeping zombie = false

abbrev pub is_runnable : ProcState → Bool
is_runnable unused = false
is_runnable used = false
is_runnable sleeping = false
is_runnable runnable = true
is_runnable running = false
is_runnable zombie = false

abbrev pub is_zombie : ProcState → Bool
is_zombie unused = false
is_zombie used = false
is_zombie sleeping = false
is_zombie runnable = false
is_zombie running = false
is_zombie zombie = true

-- What a process sleeps on: nothing, a process, or another address.
pub data Chan : Type 0 where
  null : Chan
  at_proc : ℕ → Chan
  address : ℕ → Chan

abbrev pub same_chan : Chan → Chan → Bool
same_chan null null = true
same_chan null (at_proc j) = false
same_chan null (address b) = false
same_chan (at_proc i) null = false
same_chan (at_proc i) (at_proc j) = i == j
same_chan (at_proc i) (address b) = false
same_chan (address a) null = false
same_chan (address a) (at_proc j) = false
same_chan (address a) (address b) = a == b

-- struct proc: the fields that the functions here decide by or hand on. The two pages are
-- addresses, 0 if there is none.
pub record Proc : Type 0 where
  pub state : ProcState
  pub chan : Chan
  pub killed : Bool
  pub xstate : ℤ
  pub pid : ℕ
  pub parent : Option ℕ
  pub sz : ℕ
  pub pagetable : ℕ
  pub trapframe : ℕ

-- The table, `nextpid`, `initproc`, and `cpus[c].proc`.
pub record Kernel : Type 0 where
  pub proc : ℕ → Proc
  pub nextpid : ℕ
  pub initproc : ℕ
  pub cpu : ℕ → Option ℕ

abbrev pub set_proc : ℕ → Proc → Kernel → Kernel
set_proc i p k = record k { proc = update k.proc i p }

-- `nextpid` is an int: `none` is its overflow.
unfoldable pub allocpid : Kernel → Option (ℕ × Kernel)
allocpid k = do
  guard (ltb (suc k.nextpid) 2147483648)
  some (k.nextpid, record k { nextpid = suc k.nextpid })

-- What `freeproc` leaves of a process.
abbrev pub freed : Proc → Proc
freed p = record {
  state = unused;
  chan = null;
  killed = false;
  xstate = pos 0;
  pid = 0;
  parent = none;
  sz = 0;
  pagetable = 0;
  trapframe = 0;
}

unfoldable pub freeproc : ℕ → Kernel → Kernel
freeproc i k = set_proc i (freed (k.proc i)) k

-- The first process that is not in use, from index `i` on.
unfoldable pub find_unused : ℕ → ℕ → Kernel → Option ℕ
find_unused zero i k = none
find_unused (suc n) i k = elim (is_unused (k.proc i).state) [
  | true ↦ some i
  | false ↦ find_unused n (suc i) k
]

-- Behind `found`: `trapframe` is what `kalloc` returned and `pagetable` what `proc_pagetable` did,
-- 0 for no memory.
unfoldable pub start_proc : ℕ → ℕ → ℕ → Kernel → Option (Option ℕ × Kernel)
unfolding allocpid freeproc
start_proc trapframe pagetable i k = do
  (pid, k₁) ← allocpid k
  let p = record (k.proc i) { pid = pid; state = used; trapframe = trapframe }
  if trapframe == 0
      then some (none, freeproc i (set_proc i p k₁))
      else if pagetable == 0
      then some (none, freeproc i (set_proc i p k₁))
      else some (some i, set_proc i (record p { pagetable = pagetable }) k₁)

unfoldable pub allocproc : ℕ → ℕ → Kernel → Option (Option ℕ × Kernel)
unfolding find_unused start_proc
allocproc trapframe pagetable k = elim (find_unused nproc 0 k) [
  | none ↦ some (none, k)
  | some i ↦ start_proc trapframe pagetable i k
]

-- The body of the loop of `wakeup`. The test for a process that is being created skips one that
-- is not sleeping.
unfoldable pub wake : Chan → ℕ → ℕ → Kernel → Kernel
wake chan me i k =
    if i == me
    then k
    else if is_used (k.proc i).state
    then k
    else if is_sleeping (k.proc i).state && same_chan (k.proc i).chan chan
    then set_proc i (record (k.proc i) { state = runnable }) k
    else k

unfoldable pub wakeup_from : Chan → ℕ → ℕ → ℕ → Kernel → Kernel
unfolding wake
wakeup_from chan me zero i k = k
wakeup_from chan me (suc n) i k = wakeup_from chan me n (suc i) (wake chan me i k)

-- Called by process `me`.
unfoldable pub wakeup : Chan → ℕ → Kernel → Kernel
unfolding wakeup_from
wakeup chan me k = wakeup_from chan me nproc 0 k

unfoldable pub find_pid : ℕ → ℕ → ℕ → Kernel → Option ℕ
find_pid pid zero i k = none
find_pid pid (suc n) i k = elim ((k.proc i).pid == pid) [
  | true ↦ some i
  | false ↦ find_pid pid n (suc i) k
]

-- The `killed` flag, and the end of a sleep.
abbrev pub killed_proc : Proc → Proc
killed_proc p =
    if is_sleeping p.state
    then record p { killed = true; state = runnable }
    else record p { killed = true }

-- `false` is -1.
unfoldable pub kill : ℕ → Kernel → Bool × Kernel
unfolding find_pid
kill pid k = elim (find_pid pid nproc 0 k) [
  | none ↦ (false, k)
  | some i ↦ (true, set_proc i (killed_proc (k.proc i)) k)
]

unfoldable pub setkilled : ℕ → Kernel → Kernel
setkilled i k = set_proc i (record (k.proc i) { killed = true }) k

-- One round of the inner loop of `scheduler` on processor `c`, up to `swtch`.
unfoldable pub schedule : ℕ → ℕ → Kernel → Kernel
schedule c i k =
    if is_runnable (k.proc i).state
    then (let k' = set_proc i (record (k.proc i) { state = running }) k in
        record k' { cpu = update k.cpu c (some i) })
    else k

-- `sched`, and what the scheduler does when it comes back: the processor has no process.
abbrev pub leave_cpu : ℕ → Kernel → Kernel
leave_cpu c k = record k { cpu = update k.cpu c none }

-- By process `i` on processor `c`, up to `swtch`.
unfoldable pub yield : ℕ → ℕ → Kernel → Kernel
yield c i k = leave_cpu c (set_proc i (record (k.proc i) { state = runnable }) k)

unfoldable pub sleep : ℕ → ℕ → Chan → Kernel → Kernel
sleep c i chan k = leave_cpu c (set_proc i (record (k.proc i) { chan = chan; state = sleeping }) k)

-- What `sleep` does when the process runs again.
unfoldable pub tidy_up : ℕ → Kernel → Kernel
tidy_up i k = set_proc i (record (k.proc i) { chan = null }) k
