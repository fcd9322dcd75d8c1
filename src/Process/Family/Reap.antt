-- ===== src/Process/Family/Reap.antt =====
-- `wait` of kernel/proc.c finds the child that has exited.
use native.Mathlib.Decide.{ℕ_discrete}
use raid_system.Prelude.{
  ℕ, zero, suc, ◌+◌, ◌≤◌, ◌<◌, ◌≡◌, ◌≢◌, refl, sym, ◌∙◌, subst, ap, arith, Bool, true, false, some,
  inl, inr, Bool-cases, ℤ, ==_ne, ==_refl,
}
use raid_system.Process.{is_zombie, Kernel, freeproc, nproc}
use raid_system.Process.Family.{is_parent, exit, scan_children, child, wait}
use raid_system.Process.Family.Exit.{Exits, exit-Exits}

-- Below `j` no child of `p` is a zombie.
abbrev pub IsFirst : ℕ → ℕ → Kernel → Type 0
IsFirst p j k =
    (l : ℕ) → l < j → is_parent (k.proc l).parent p ≡ true → is_zombie (k.proc l).state ≡ false

scan_children-first :
    (p n pp j : ℕ) (havekids : Bool) (k : Kernel)
    → pp ≤ j
    → j < pp + n
    → is_parent (k.proc j).parent p ≡ true
    → is_zombie (k.proc j).state ≡ true
    → IsFirst p j k
    → (scan_children p n pp havekids k).1 ≡ some j
unfolding scan_children
scan_children-first p zero pp j havekids k lo hi mine gone first = absurd (omega arith)
scan_children-first p (suc n) pp j havekids k lo hi mine gone first = elim (ℕ_discrete pp j) [
  | yes e ↦
      let mine' : is_parent (k.proc pp).parent p ≡ true = rw e mine in
      let gone' : is_zombie (k.proc pp).state ≡ true = rw e gone in
      rw (mine', gone', scan_children) (ap some e)
  | no ne ↦ elim (Bool-cases (is_parent (k.proc pp).parent p)) [
    | inr q ↦
        rw (q, scan_children)
          (scan_children-first p n (suc pp) j havekids k (omega arith) (omega arith) mine gone
            first)
    | inl q ↦
        rw (q, first pp (omega arith) q, scan_children)
          (scan_children-first p n (suc pp) j true k (omega arith) (omega arith) mine gone first)
  ]
]

-- `wait` of a process of which `j` is the first child that is a zombie returns the number and
-- the status of `j`, without a sleep, and frees it.
pub wait-first :
    (d p j : ℕ) (k : Kernel)
    → j < nproc
    → is_parent (k.proc j).parent p ≡ true
    → is_zombie (k.proc j).state ≡ true
    → IsFirst p j k
    → wait d p true k ≡ (child (k.proc j).pid (k.proc j).xstate, freeproc j k)
unfolding wait
wait-first d p j k h mine gone first =
    rw (scan_children-first p nproc 0 j false k (omega arith) (omega arith) mine gone first, wait)
      refl

-- A process gets the number and the exit status of its child: after `exit` of process `i`,
-- `wait` of its parent returns them at once and frees the child, if no child before `i` in the
-- table is a zombie too and the status can be copied out.
pub wait-exit :
    (c d i p : ℕ) (status : ℤ) (k k' : Kernel)
    → i ≢ k.initproc
    → i < nproc
    → (k.proc i).parent ≡ some p
    → p ≢ i
    → exit c i status k ≡ some k'
    → IsFirst p i k'
    → wait d p true k' ≡ (child (k.proc i).pid status, freeproc i k')
wait-exit c d i p status k k' ne h family other e first =
    let r = exit-Exits c i status k ne in
    let same : some r.0 ≡ some k' = sym r.1 ∙ e in
    let same' : r.0 ≡ k' = cc in
    let x = subst (Exits c i status k) same' r.2 in
    let parent : (k'.proc i).parent ≡ some p = x.parents i h ∙ rw (family, ==_ne p i other) refl in
    wait-first d p i k' h (rw parent (==_refl p)) (rw x.state refl) first
    ∙ rw (x.pid, x.status_kept) refl
