-- ===== src/Process/Keeps.antt =====
-- Changes to the table of kernel/proc.c that leave each process its identity: its number, whether
-- it is in use, and the processor that it runs on.
use native.Mathlib.Decide.{ℕ_discrete}
use raid_system.Prelude.{
  ℕ, zero, suc, ◌≡◌, ◌≢◌, refl, sym, ◌∙◌, subst, arith, true, false, some, update, update_self,
  update_ne, inl, inr, Bool-cases, Option-cases,
}
use raid_system.Process.{
  ProcState, unused, used, sleeping, runnable, running, zombie, is_unused, is_sleeping, Chan,
  at_proc, Proc, Kernel, set_proc, wake, wakeup_from, wakeup, nproc, find_pid, kill, killed_proc,
  setkilled, tidy_up,
}
use raid_system.Process.Family.{
  fork_copy, fork_parent, fork_ready, is_parent, reparent_from, reparent,
}

pub record Keeps (k k' : Kernel) : Type 0 where
  pub pid : (j : ℕ) → (k'.proc j).pid ≡ (k.proc j).pid
  pub in_use : (j : ℕ) → is_unused (k'.proc j).state ≡ is_unused (k.proc j).state
  pub runs : (j : ℕ) → (k.proc j).state ≡ running → (k'.proc j).state ≡ running
  pub next : k'.nextpid ≡ k.nextpid
  pub cpus : k'.cpu ≡ k.cpu
  pub init : k'.initproc ≡ k.initproc

pub Keeps-refl : (k : Kernel) → Keeps k k
Keeps-refl k = record {
  pid = λ j. refl;
  in_use = λ j. refl;
  runs = λ j e. e;
  next = refl;
  cpus = refl;
  init = refl;
}

pub Keeps-trans : (k l m : Kernel) → Keeps k l → Keeps l m → Keeps k m
Keeps-trans k l m a b = record {
  pid = λ j. b.pid j ∙ a.pid j;
  in_use = λ j. b.in_use j ∙ a.in_use j;
  runs = λ j e. b.runs j (a.runs j e);
  next = b.next ∙ a.next;
  cpus = b.cpus ∙ a.cpus;
  init = b.init ∙ a.init;
}

-- What holds of the new process and of the others holds of all.
pub update-all {ℓ} :
    (P : ℕ → Proc → Type ℓ) (f : ℕ → Proc) (i : ℕ) (p : Proc)
    → P i p
    → ((j : ℕ) → i ≢ j → P j (f j))
    → (j : ℕ) → P j (update f i p j)
update-all P f i p here there j = elim (ℕ_discrete i j) [
  | yes e ↦ subst (λ x. P x (update f i p x)) e (subst (P i) (sym (update_self f i p)) here)
  | no ne ↦ subst (P j) (sym (update_ne f i j p ne)) (there j ne)
]

pub set_proc-Keeps :
    (i : ℕ) (p : Proc) (k : Kernel)
    → p.pid ≡ (k.proc i).pid
    → is_unused p.state ≡ is_unused (k.proc i).state
    → ((k.proc i).state ≡ running → p.state ≡ running)
    → Keeps k (set_proc i p k)
set_proc-Keeps i p k pid in_use runs = record {
  pid = update-all (λ j q. q.pid ≡ (k.proc j).pid) k.proc i p pid (λ j ne. refl);
  in_use =
      update-all (λ j q. is_unused q.state ≡ is_unused (k.proc j).state) k.proc i p in_use
        (λ j ne. refl);
  runs =
      update-all (λ j q. (k.proc j).state ≡ running → q.state ≡ running) k.proc i p runs
        (λ j ne e. e);
  next = refl;
  cpus = refl;
  init = refl;
}

pub sleeping-in_use : (s : ProcState) → is_sleeping s ≡ true → is_unused s ≡ false
sleeping-in_use sleeping e = refl
sleeping-in_use unused e = cc
sleeping-in_use used e = cc
sleeping-in_use runnable e = cc
sleeping-in_use running e = cc
sleeping-in_use zombie e = cc

pub sleeping-running : (s : ProcState) → is_sleeping s ≡ true → s ≡ running → ⊥
sleeping-running s e r = absurd (cc)

-- The process is woken, or nothing happens.
wake-cases {ℓ} :
    (P : Kernel → Type ℓ) (chan : Chan) (me i : ℕ) (k : Kernel)
    → P k
    → (is_sleeping (k.proc i).state ≡ true
        → P (set_proc i (record (k.proc i) { state = runnable }) k))
    → P (wake chan me i k)
unfolding wake
wake-cases P chan me i k same woken = ground arith

wake-Keeps : (chan : Chan) (me i : ℕ) (k : Kernel) → Keeps k (wake chan me i k)
wake-Keeps chan me i k = wake-cases (Keeps k) chan me i k (Keeps-refl k) (λ e.
    set_proc-Keeps i (record (k.proc i) { state = runnable }) k refl
      (sym (sleeping-in_use (k.proc i).state e))
      (λ r. absurd (sleeping-running (k.proc i).state e r)))

wakeup_from-Keeps : (chan : Chan) (me n i : ℕ) (k : Kernel) → Keeps k (wakeup_from chan me n i k)
unfolding wakeup_from
wakeup_from-Keeps chan me zero i k = Keeps-refl k
wakeup_from-Keeps chan me (suc n) i k =
    Keeps-trans k (wake chan me i k) (wakeup_from chan me (suc n) i k) (wake-Keeps chan me i k)
      (wakeup_from-Keeps chan me n (suc i) (wake chan me i k))

pub wakeup-Keeps : (chan : Chan) (me : ℕ) (k : Kernel) → Keeps k (wakeup chan me k)
unfolding wakeup
wakeup-Keeps chan me k = wakeup_from-Keeps chan me nproc 0 k

reparent_from-Keeps : (i n pp : ℕ) (k : Kernel) → Keeps k (reparent_from i n pp k)
unfolding reparent_from
reparent_from-Keeps i zero pp k = Keeps-refl k
reparent_from-Keeps i (suc n) pp k = elim (Bool-cases (is_parent (k.proc pp).parent i)) [
  | inl e ↦
      let k₁ = set_proc pp (record (k.proc pp) { parent = some k.initproc }) k in
      let k₂ = wakeup (at_proc k.initproc) i k₁ in
      rw e (
        Keeps-trans k k₁ (reparent_from i n (suc pp) k₂)
          (set_proc-Keeps pp (record (k.proc pp) { parent = some k.initproc }) k refl refl (λ r. r))
          (Keeps-trans k₁ k₂ (reparent_from i n (suc pp) k₂)
            (wakeup-Keeps (at_proc k.initproc) i k₁) (reparent_from-Keeps i n (suc pp) k₂)))
  | inr e ↦ rw e (reparent_from-Keeps i n (suc pp) k)
]

pub reparent-Keeps : (i : ℕ) (k : Kernel) → Keeps k (reparent i k)
unfolding reparent
reparent-Keeps i k = reparent_from-Keeps i nproc 0 k

killed_proc-Keeps : (i : ℕ) (k : Kernel) → Keeps k (set_proc i (killed_proc (k.proc i)) k)
killed_proc-Keeps i k = elim (Bool-cases (is_sleeping (k.proc i).state)) [
  | inl e ↦ rw e (
      set_proc-Keeps i (record (k.proc i) { killed = true; state = runnable }) k refl
        (sym (sleeping-in_use (k.proc i).state e))
        (λ r. absurd (sleeping-running (k.proc i).state e r)))
  | inr e ↦ rw e (set_proc-Keeps i (record (k.proc i) { killed = true }) k refl refl (λ r. r))
]

pub kill-Keeps : (pid : ℕ) (k : Kernel) → Keeps k (kill pid k).1
unfolding kill
kill-Keeps pid k = elim (Option-cases (find_pid pid nproc 0 k)) [
  | inl e ↦ rw (e, kill) (Keeps-refl k)
  | inr (i, e) ↦ rw (e, kill) (killed_proc-Keeps i k)
]

pub setkilled-Keeps : (i : ℕ) (k : Kernel) → Keeps k (setkilled i k)
unfolding setkilled
setkilled-Keeps i k = set_proc-Keeps i (record (k.proc i) { killed = true }) k refl refl (λ r. r)

pub tidy_up-Keeps : (i : ℕ) (k : Kernel) → Keeps k (tidy_up i k)
unfolding tidy_up
tidy_up-Keeps i k = set_proc-Keeps i (record (k.proc i) { chan = Chan.null }) k refl refl (λ r. r)

pub fork_copy-Keeps : (i np : ℕ) (k : Kernel) → Keeps k (fork_copy i np k)
unfolding fork_copy
fork_copy-Keeps i np k =
    set_proc-Keeps np (record (k.proc np) { sz = (k.proc i).sz }) k refl refl (λ r. r)

pub fork_parent-Keeps : (i np : ℕ) (k : Kernel) → Keeps k (fork_parent i np k)
unfolding fork_parent
fork_parent-Keeps i np k =
    set_proc-Keeps np (record (k.proc np) { parent = some i }) k refl refl (λ r. r)

pub fork_ready-Keeps : (np : ℕ) (k : Kernel) → (k.proc np).state ≡ used → Keeps k (fork_ready np k)
unfolding fork_ready
fork_ready-Keeps np k e =
    set_proc-Keeps np (record (k.proc np) { state = runnable }) k refl (rw e refl)
      (λ r. absurd (cc))
