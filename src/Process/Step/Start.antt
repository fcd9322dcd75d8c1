-- ===== src/Process/Step/Start.antt =====
-- New and freed processes of kernel/proc.c, and the invariant after any steps.
use raid_system.Prelude.{
  ℕ, zero, suc, ◌<◌, ◌≡◌, ◌≢◌, refl, ◌∙◌, subst, ap, arith, Bool, true, false, Option, none, some,
  ltb, ◌==◌, update, update_self, inl, inr, Bool-cases, Option-cases, ℤ,
}
use raid_system.Process.Keeps.{}
use raid_system.Process.Step.{}
use raid_system.Process.{wakeup, sleeping, runnable}
use raid_system.Process.{
  ProcState, unused, used, sleeping, runnable, running, zombie, is_unused, is_zombie, Proc, Kernel,
  set_proc, allocpid, freed, freeproc, find_unused, start_proc, allocproc, nproc, wakeup,
}
use raid_system.Process.Keeps.{Keeps-trans, update-all, wakeup-Keeps, reparent-Keeps}
use raid_system.Process.Family.{scan_children, exit, parent_chan, reparent, is_parent}
use raid_system.Process.Step.Sound.{IsSound, Keeps-IsSound, switch-IsSound}

off_cpu : (i : ℕ) (k : Kernel) → IsSound k → (k.proc i).state ≢ running → (c : ℕ) → k.cpu c ≢ some i
off_cpu i k s idle c e = idle (s.on_cpu c i e)

pub freeproc-IsSound :
    (i : ℕ) (k : Kernel) → IsSound k → (k.proc i).state ≢ running → IsSound (freeproc i k)
unfolding freeproc
freeproc-IsSound i k s idle = record {
  free =
      update-all (λ j q. is_unused q.state ≡ true → q.pid ≡ 0) k.proc i (freed (k.proc i))
        (λ e. refl) (λ j ne e. s.free j e);
  positive =
      update-all (λ j q. is_unused q.state ≡ false → 0 < q.pid) k.proc i (freed (k.proc i))
        (λ e. absurd (cc)) (λ j ne e. s.positive j e);
  below =
      update-all (λ j q. q.pid < k.nextpid) k.proc i (freed (k.proc i)) (omega (arith, s.below i))
        (λ j ne. s.below j);
  distinct = λ j l.
      update-all
        (λ j q.
          is_unused q.state ≡ false → q.pid ≡ (update k.proc i (freed (k.proc i)) l).pid → j ≡ l)
        k.proc i (freed (k.proc i)) (λ e. absurd (cc))
        (λ j' ne e.
          update-all (λ l q. (k.proc j').pid ≡ q.pid → j' ≡ l) k.proc i (freed (k.proc i))
            (λ q. absurd (omega (arith, s.positive j' e))) (λ l' ne' q. s.distinct j' l' e q) l)
        j;
  on_cpu = λ c.
      update-all (λ j q. k.cpu c ≡ some j → q.state ≡ running) k.proc i (freed (k.proc i))
        (λ e. absurd (idle (s.on_cpu c i e))) (λ j ne e. s.on_cpu c j e);
  one_cpu = s.one_cpu;
}

-- A process that was not in use gets the next number.
fresh-IsSound :
    (i : ℕ) (p : Proc) (k : Kernel)
    → IsSound k
    → (k.proc i).state ≢ running
    → p.pid ≡ k.nextpid
    → is_unused p.state ≡ false
    → IsSound (set_proc i p (record k { nextpid = suc k.nextpid }))
fresh-IsSound i p k s idle pid in_use = record {
  free =
      update-all (λ j q. is_unused q.state ≡ true → q.pid ≡ 0) k.proc i p (λ e. absurd (cc))
        (λ j ne e. s.free j e);
  positive =
      update-all (λ j q. is_unused q.state ≡ false → 0 < q.pid) k.proc i p
        (λ e. omega (arith, s.below i)) (λ j ne e. s.positive j e);
  below =
      update-all (λ j q. q.pid < suc k.nextpid) k.proc i p (omega arith)
        (λ j ne. omega (arith, s.below j));
  distinct = λ j l.
      update-all (λ j q. is_unused q.state ≡ false → q.pid ≡ (update k.proc i p l).pid → j ≡ l)
        k.proc i p
        (λ e.
          update-all (λ l q. p.pid ≡ q.pid → i ≡ l) k.proc i p (λ q. refl)
            (λ l' ne q. absurd (omega (arith, s.below l'))) l)
        (λ j' ne e.
          update-all (λ l q. (k.proc j').pid ≡ q.pid → j' ≡ l) k.proc i p
            (λ q. absurd (omega (arith, s.below j'))) (λ l' ne' q. s.distinct j' l' e q) l)
        j;
  on_cpu = λ c.
      update-all (λ j q. k.cpu c ≡ some j → q.state ≡ running) k.proc i p
        (λ e. absurd (idle (s.on_cpu c i e))) (λ j ne e. s.on_cpu c j e);
  one_cpu = s.one_cpu;
}

abbrev pub Ensures : Option (Option ℕ × Kernel) → Type 0
Ensures none = Unit
Ensures (some (r, k)) = IsSound k

pub find_unused-some :
    (n i j : ℕ) (k : Kernel) → find_unused n i k ≡ some j → is_unused (k.proc j).state ≡ true
unfolding find_unused
find_unused-some zero i j k e = cc
find_unused-some (suc n) i j k e = elim (Bool-cases (is_unused (k.proc i).state)) [
  | inl u ↦
      let here : some i ≡ some j = rw (u, find_unused) at e in
      let same : i ≡ j = cc in subst (λ x. is_unused (k.proc x).state ≡ true) same u
  | inr u ↦ find_unused-some n (suc i) j k (rw (u, find_unused) at e)
]

start_proc-Ensures :
    (trapframe pagetable i : ℕ) (k : Kernel)
    → IsSound k
    → is_unused (k.proc i).state ≡ true
    → Ensures (start_proc trapframe pagetable i k)
unfolding start_proc allocpid
start_proc-Ensures trapframe pagetable i k s u =
    let idle : (k.proc i).state ≢ running = λ e. absurd (cc) in
    let p : Proc = record (k.proc i) { pid = k.nextpid; state = used; trapframe = trapframe } in
    let q : Proc = record p { pagetable = pagetable } in
    let k₁ : Kernel = record k { nextpid = suc k.nextpid } in
    let made = fresh-IsSound i p k s idle refl refl in
    let not_running : (update k.proc i p i).state ≢ running =
      λ e. (let w = ap (λ (x : Proc). x.state) (update_self k.proc i p) in absurd (cc)) in
    let undone = freeproc-IsSound i (set_proc i p k₁) made not_running in
    elim (Bool-cases (ltb (suc k.nextpid) 2147483648)) [
      | inr e ↦ rw e tt
      | inl e ↦ elim (Bool-cases (trapframe == 0)) [
        | inl t ↦ rw (e, t) undone
        | inr t ↦ elim (Bool-cases (pagetable == 0)) [
          | inl g ↦ rw (e, t, g) undone
          | inr g ↦ rw (e, t, g) (fresh-IsSound i q k s idle refl refl)
        ]
      ]
    ]

pub allocproc-Ensures :
    (trapframe pagetable : ℕ) (k : Kernel) → IsSound k → Ensures (allocproc trapframe pagetable k)
unfolding allocproc
allocproc-Ensures trapframe pagetable k s = elim (Option-cases (find_unused nproc 0 k)) [
  | inl e ↦ rw (e, allocproc) s
  | inr (i, e) ↦
      rw (e, allocproc)
        (start_proc-Ensures trapframe pagetable i k s (find_unused-some nproc 0 i k e))
]

abbrev pub EnsuresExit : Option Kernel → Type 0
EnsuresExit none = Unit
EnsuresExit (some k) = IsSound k

pub exit-EnsuresExit :
    (c i : ℕ) (status : ℤ) (k : Kernel)
    → IsSound k
    → k.cpu c ≡ some i
    → EnsuresExit (exit c i status k)
unfolding exit
exit-EnsuresExit c i status k s on = elim (Bool-cases (i == k.initproc)) [
  | inl e ↦ rw e tt
  | inr e ↦
      let k₁ = reparent i k in
      let k₂ = wakeup (parent_chan (k₁.proc i).parent) i k₁ in
      let keeps =
        Keeps-trans k k₁ k₂ (reparent-Keeps i k)
          (wakeup-Keeps (parent_chan (k₁.proc i).parent) i k₁) in
      rw e (
        switch-IsSound c i (record (k₂.proc i) { xstate = status; state = zombie }) k₂
          (Keeps-IsSound k k₂ keeps s) (ap (λ f. f c) keeps.cpus ∙ on) refl refl)
]

is_zombie-eq : (s : ProcState) → is_zombie s ≡ true → s ≡ zombie
is_zombie-eq zombie e = refl
is_zombie-eq unused e = cc
is_zombie-eq used e = cc
is_zombie-eq sleeping e = cc
is_zombie-eq runnable e = cc
is_zombie-eq running e = cc

pub scan_children-zombie :
    (i n pp j : ℕ) (havekids : Bool) (k : Kernel)
    → (scan_children i n pp havekids k).1 ≡ some j
    → (k.proc j).state ≡ zombie
unfolding scan_children
scan_children-zombie i zero pp j havekids k e = cc
scan_children-zombie i (suc n) pp j havekids k e =
    elim (Bool-cases (is_parent (k.proc pp).parent i)) [
      | inr q ↦ scan_children-zombie i n (suc pp) j havekids k (rw (q, scan_children) at e)
      | inl q ↦ elim (Bool-cases (is_zombie (k.proc pp).state)) [
        | inr z ↦ scan_children-zombie i n (suc pp) j true k (rw (q, z, scan_children) at e)
        | inl z ↦
            let same : some pp ≡ some j = rw (q, z, scan_children) at e in
            let same' : pp ≡ j = cc in
            subst (λ x. (k.proc x).state ≡ zombie) same' (is_zombie-eq (k.proc pp).state z)
      ]
    ]
