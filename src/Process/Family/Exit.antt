-- ===== src/Process/Family/Exit.antt =====
-- `exit` and `wait` of kernel/proc.c together.
use native.Mathlib.Decide.{ℕ_discrete}
use raid_system.Prelude.{
  ℕ, zero, suc, ◌+◌, ◌≤◌, ◌<◌, ◌≡◌, ◌≢◌, refl, ◌∙◌, subst, ap, arith, Option, none, some, ◌⊎◌,
  if◌then◌else◌, update_self, update_ne, inl, inr, Bool-cases, ℤ, ==_ne,
}
use raid_system.Process.{zombie, Chan, at_proc, Proc, Kernel, set_proc, nproc, leave_cpu, wakeup}
use raid_system.Process.Family.{is_parent, reparent_from, reparent, parent_chan, exit}
use raid_system.Process.Wakeup.{wakeup_lem, rouse-parent}
use raid_system.Process.Keeps.{Keeps-trans, update-all, wakeup-Keeps, reparent-Keeps}

-- Who the parent is once `i` has given its children away.
abbrev pub given_away : ℕ → ℕ → Option ℕ → Option ℕ
given_away i init parent = if is_parent parent i then some init else parent

wakeup-parent :
    (chan : Chan) (me j : ℕ) (k : Kernel)
    → j < nproc
    → ((wakeup chan me k).proc j).parent ≡ (k.proc j).parent
wakeup-parent chan me j k h =
    ap (λ (p : Proc). p.parent) (wakeup_lem chan me j k h) ∙ rouse-parent chan me j (k.proc j)

-- What one round of `reparent` makes of the table.
abbrev pub adopted : ℕ → ℕ → Kernel → Kernel
adopted i pp k =
    if is_parent (k.proc pp).parent i
    then wakeup (at_proc k.initproc) i
        (set_proc pp (record (k.proc pp) { parent = some k.initproc }) k)
    else k

module _ (i : ℕ) where
  adopted_self :
      (pp : ℕ) (k : Kernel)
      → pp < nproc
      → ((adopted i pp k).proc pp).parent ≡ given_away i k.initproc (k.proc pp).parent
  adopted_self pp k h = elim (Bool-cases (is_parent (k.proc pp).parent i)) [
    | inr e ↦ rw e refl
    | inl e ↦
        let p : Proc = record (k.proc pp) { parent = some k.initproc } in
        rw e (
          wakeup-parent (at_proc k.initproc) i pp (set_proc pp p k) h
          ∙ ap (λ (q : Proc). q.parent) (update_self k.proc pp p))
  ]

  adopted_ne :
      (pp j : ℕ) (k : Kernel)
      → j < nproc
      → pp ≢ j
      → ((adopted i pp k).proc j).parent ≡ (k.proc j).parent
  adopted_ne pp j k h ne = elim (Bool-cases (is_parent (k.proc pp).parent i)) [
    | inr e ↦ rw e refl
    | inl e ↦
        let p : Proc = record (k.proc pp) { parent = some k.initproc } in
        rw e (
          wakeup-parent (at_proc k.initproc) i j (set_proc pp p k) h
          ∙ ap (λ (q : Proc). q.parent) (update_ne k.proc pp j p ne))
  ]

  adopted-init : (pp : ℕ) (k : Kernel) → (adopted i pp k).initproc ≡ k.initproc
  adopted-init pp k = elim (Bool-cases (is_parent (k.proc pp).parent i)) [
    | inr e ↦ rw e refl
    | inl e ↦ rw e (
        let keeps =
          wakeup-Keeps (at_proc k.initproc) i
            (set_proc pp (record (k.proc pp) { parent = some k.initproc }) k) in
        keeps.init)
  ]

  reparent_from_outside :
      (n pp j : ℕ) (k : Kernel)
      → j < nproc
      → (j < pp) ⊎ (pp + n ≤ j)
      → ((reparent_from i n pp k).proc j).parent ≡ (k.proc j).parent
  unfolding reparent_from
  reparent_from_outside zero pp j k h out = refl
  reparent_from_outside (suc n) pp j k h out =
      reparent_from_outside n (suc pp) j (adopted i pp k) h
        (elim out [ inl l ↦ inl (omega arith) | inr l ↦ inr (omega arith) ])
      ∙ adopted_ne pp j k h (elim out [ inl l ↦ omega arith | inr l ↦ omega arith ])

  reparent_from_inside :
      (n pp j : ℕ) (k : Kernel)
      → j < nproc
      → pp ≤ j
      → j < pp + n
      → ((reparent_from i n pp k).proc j).parent ≡ given_away i k.initproc (k.proc j).parent
  unfolding reparent_from
  reparent_from_inside zero pp j k h lo hi = absurd (omega arith)
  reparent_from_inside (suc n) pp j k h lo hi = elim (ℕ_discrete pp j) [
    | yes e ↦
        reparent_from_outside n (suc pp) j (adopted i pp k) h (inl (omega arith))
        ∙ subst (λ x. ((adopted i pp k).proc x).parent ≡ given_away i k.initproc (k.proc x).parent)
            e (adopted_self pp k (omega arith))
    | no ne ↦
        reparent_from_inside n (suc pp) j (adopted i pp k) h (omega arith) (omega arith)
        ∙ rw (adopted-init pp k, adopted_ne pp j k h ne) refl
  ]

  reparent-parent :
      (j : ℕ) (k : Kernel)
      → j < nproc
      → ((reparent i k).proc j).parent ≡ given_away i k.initproc (k.proc j).parent
  unfolding reparent
  reparent-parent j k h = reparent_from_inside nproc 0 j k h (omega arith) (omega arith)

-- The table behind `exit` of process `i`.
pub record Exits (c i : ℕ) (status : ℤ) (k k' : Kernel) : Type 0 where
  pub state : (k'.proc i).state ≡ zombie
  pub status_kept : (k'.proc i).xstate ≡ status
  pub pid : (k'.proc i).pid ≡ (k.proc i).pid
  pub off : k'.cpu c ≡ none
  pub parents : (j : ℕ) → j < nproc → (k'.proc j).parent ≡ given_away i k.initproc (k.proc j).parent

-- `exit` of a process that is not the first one leaves a zombie with its number and its status,
-- frees the processor, and gives each of its children, and no other process, to the first one.
pub exit-Exits :
    (c i : ℕ) (status : ℤ) (k : Kernel)
    → i ≢ k.initproc
    → (k' : Kernel) × (exit c i status k ≡ some k') × Exits c i status k k'
unfolding exit
exit-Exits c i status k ne =
    let k₁ = reparent i k in
    let chan = parent_chan (k₁.proc i).parent in
    let k₂ = wakeup chan i k₁ in
    let p : Proc = record (k₂.proc i) { xstate = status; state = zombie } in
    let self = update_self k₂.proc i p in
    let keeps = Keeps-trans k k₁ k₂ (reparent-Keeps i k) (wakeup-Keeps chan i k₁) in
    let same_parents =
      update-all (λ j (q : Proc). q.parent ≡ (k₂.proc j).parent) k₂.proc i p refl (λ j d. refl) in
    (
      leave_cpu c (set_proc i p k₂),
      rw (==_ne i k.initproc ne) refl,
      record {
        state = ap (λ (q : Proc). q.state) self;
        status_kept = ap (λ (q : Proc). q.xstate) self;
        pid = ap (λ (q : Proc). q.pid) self ∙ keeps.pid i;
        off = update_self k₂.cpu c none;
        parents = λ j h. same_parents j ∙ wakeup-parent chan i j k₁ h ∙ reparent-parent i j k h;
      },
    )
