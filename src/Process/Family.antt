-- ===== src/Process/Family.antt =====
-- `fork`, `reparent`, `exit` and `wait` of kernel/proc.c. The files and the directory that a
-- process holds are not in the model.
pub mod Exit
pub mod Reap
use raid_system.Prelude.{
  ℕ, zero, suc, ◌+◌, Bool, true, false, not, ◌&&◌, ◌||◌, Option, none, some, ◌>>=◌, ◌>>◌, ltb, ◌==◌,
  if◌then◌else◌, update, ℤ, pos, negsuc,
}
use raid_system.Process.{
  nproc, ProcState, sleeping, runnable, zombie, is_zombie, Chan, null, at_proc, Proc, Kernel,
  set_proc, freeproc, allocproc, wakeup, leave_cpu, sleep,
}

-- The three critical sections of `fork`, for a parent `i` and a child `np`.
unfoldable pub fork_copy : ℕ → ℕ → Kernel → Kernel
fork_copy i np k = set_proc np (record (k.proc np) { sz = (k.proc i).sz }) k

unfoldable pub fork_parent : ℕ → ℕ → Kernel → Kernel
fork_parent i np k = set_proc np (record (k.proc np) { parent = some i }) k

unfoldable pub fork_ready : ℕ → Kernel → Kernel
fork_ready np k = set_proc np (record (k.proc np) { state = runnable }) k

-- `copied` is whether `uvmcopy` had the memory that it needed.
unfoldable pub fork : ℕ → ℕ → Bool → ℕ → Kernel → Option (ℤ × Kernel)
unfolding allocproc freeproc fork_copy fork_parent fork_ready
fork trapframe pagetable copied i k = do
  (child, k₁) ← allocproc trapframe pagetable k
  elim child [
    | none ↦ some (negsuc 0, k₁)
    | some np ↦
        if copied
        then (let k₂ = fork_copy i np k₁ in
            some (pos (k₂.proc np).pid, fork_ready np (fork_parent i np k₂)))
        else some (negsuc 0, freeproc np k₁)
  ]

abbrev pub is_parent : Option ℕ → ℕ → Bool
is_parent none i = false
is_parent (some j) i = j == i

unfoldable pub reparent_from : ℕ → ℕ → ℕ → Kernel → Kernel
unfolding wakeup
reparent_from i zero pp k = k
reparent_from i (suc n) pp k = reparent_from i n (suc pp) (
    if is_parent (k.proc pp).parent i
    then wakeup (at_proc k.initproc) i
        (set_proc pp (record (k.proc pp) { parent = some k.initproc }) k)
    else k)

unfoldable pub reparent : ℕ → Kernel → Kernel
unfolding reparent_from
reparent i k = reparent_from i nproc 0 k

-- The address of the parent, as a channel.
abbrev pub parent_chan : Option ℕ → Chan
parent_chan none = null
parent_chan (some j) = at_proc j

-- By process `i` on processor `c`; the panic of `initproc` is none.
unfoldable pub exit : ℕ → ℕ → ℤ → Kernel → Option Kernel
unfolding reparent wakeup
exit c i status k =
    if i == k.initproc
    then none
    else (let k₁ = reparent i k in
        let k₂ = wakeup (parent_chan (k₁.proc i).parent) i k₁ in
        some (leave_cpu c (set_proc i (record (k₂.proc i) { xstate = status; state = zombie }) k₂)))

-- The scan of `wait`: whether there was a child, and the first child that is a zombie.
unfoldable pub scan_children : ℕ → ℕ → ℕ → Bool → Kernel → Bool × Option ℕ
scan_children i zero pp havekids k = (havekids, none)
scan_children i (suc n) pp havekids k = elim (is_parent (k.proc pp).parent i) [
  | false ↦ scan_children i n (suc pp) havekids k
  | true ↦ elim (is_zombie (k.proc pp).state) [
    | true ↦ (true, some pp)
    | false ↦ scan_children i n (suc pp) true k
  ]
]

-- What a round of `wait` ends in: a child's number and its exit status, -1, or a sleep.
pub data Waited : Type 0 where
  child : ℕ → ℤ → Waited
  failed : Waited
  asleep : Waited

-- One round, by process `i` on processor `c`. `copied` is whether `copyout` of the status is not
-- asked for or succeeds.
unfoldable pub wait : ℕ → ℕ → Bool → Kernel → Waited × Kernel
unfolding scan_children freeproc sleep
wait c i copied k =
    let found = scan_children i nproc 0 false k in
    elim found.1 [
      | some pp ↦
          if copied then (child (k.proc pp).pid (k.proc pp).xstate, freeproc pp k) else (failed, k)
      | none ↦
          if not found.0 || (k.proc i).killed
          then (failed, k)
          else (asleep, sleep c i (at_proc i) k)
    ]
