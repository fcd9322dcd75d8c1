-- ===== src/Process/Step/Sound.antt =====
-- What holds of the table of kernel/proc.c between two critical sections, and the changes that
-- keep it.
use native.Mathlib.Decide.{ℕ_discrete}
use raid_system.Prelude.{
  ℕ, ◌<◌, ◌≡◌, ◌≢◌, refl, sym, ◌∙◌, subst, ap, true, false, none, some, update, update_self,
  update_ne, inl, inr, Bool-cases,
}
use raid_system.Process.{
  ProcState, unused, used, sleeping, runnable, running, zombie, is_unused, is_runnable, Proc,
  Kernel, set_proc, schedule, leave_cpu,
}
use raid_system.Process.Keeps.{Keeps, update-all}

-- Processes in use have different positive numbers below `nextpid`, the others have 0. What a
-- processor has is running, and on no other processor.
pub record IsSound (k : Kernel) : Type 0 where
  pub free : (i : ℕ) → is_unused (k.proc i).state ≡ true → (k.proc i).pid ≡ 0
  pub positive : (i : ℕ) → is_unused (k.proc i).state ≡ false → 0 < (k.proc i).pid
  pub below : (i : ℕ) → (k.proc i).pid < k.nextpid
  pub distinct :
      (i j : ℕ) → is_unused (k.proc i).state ≡ false → (k.proc i).pid ≡ (k.proc j).pid → i ≡ j
  pub on_cpu : (c i : ℕ) → k.cpu c ≡ some i → (k.proc i).state ≡ running
  pub one_cpu : (c d i : ℕ) → k.cpu c ≡ some i → k.cpu d ≡ some i → c ≡ d

pub Keeps-IsSound : (k k' : Kernel) → Keeps k k' → IsSound k → IsSound k'
Keeps-IsSound k k' keeps s = record {
  free = λ i e. keeps.pid i ∙ s.free i (sym (keeps.in_use i) ∙ e);
  positive = λ i e. rw (keeps.pid i) (s.positive i (sym (keeps.in_use i) ∙ e));
  below = λ i. rw (keeps.pid i, keeps.next) (s.below i);
  distinct =
      λ i j e q. s.distinct i j (sym (keeps.in_use i) ∙ e) (sym (keeps.pid i) ∙ q ∙ keeps.pid j);
  on_cpu = λ c i e. keeps.runs i (s.on_cpu c i (sym (ap (λ f. f c) keeps.cpus) ∙ e));
  one_cpu = λ c d i e q.
      s.one_cpu c d i (sym (ap (λ f. f c) keeps.cpus) ∙ e) (sym (ap (λ f. f d) keeps.cpus) ∙ q);
}

-- A process that is on no processor and in use takes another state, in which it stays in use.
pub set_state-IsSound :
    (i : ℕ) (p : Proc) (k : Kernel)
    → IsSound k
    → p.pid ≡ (k.proc i).pid
    → is_unused p.state ≡ is_unused (k.proc i).state
    → ((c : ℕ) → k.cpu c ≢ some i)
    → IsSound (set_proc i p k)
set_state-IsSound i p k s pid in_use off =
    let pids = update-all (λ j q. q.pid ≡ (k.proc j).pid) k.proc i p pid (λ j ne. refl) in
    let uses =
      update-all (λ j q. is_unused q.state ≡ is_unused (k.proc j).state) k.proc i p in_use
        (λ j ne. refl) in
    record {
      free = λ j e. pids j ∙ s.free j (sym (uses j) ∙ e);
      positive = λ j e. rw (pids j) (s.positive j (sym (uses j) ∙ e));
      below = λ j. rw (pids j) (s.below j);
      distinct = λ j l e q. s.distinct j l (sym (uses j) ∙ e) (sym (pids j) ∙ q ∙ pids l);
      on_cpu = λ c.
          update-all (λ j q. k.cpu c ≡ some j → q.state ≡ running) k.proc i p
            (λ e. absurd (off c e)) (λ j ne e. s.on_cpu c j e);
      one_cpu = s.one_cpu;
    }

-- A processor lets go of its process.
pub leave_cpu-IsSound : (c : ℕ) (k : Kernel) → IsSound k → IsSound (leave_cpu c k)
leave_cpu-IsSound c k s =
    let old = λ (d i : ℕ) (e : update k.cpu c none d ≡ some i).
      (let there : k.cpu d ≡ some i = elim (ℕ_discrete c d) [
        | yes q ↦ absurd (
            let gone : update k.cpu c none d ≡ none =
              subst (λ x. update k.cpu c none x ≡ none) q (update_self k.cpu c none) in
            cc)
        | no ne ↦ sym (update_ne k.cpu c d none ne) ∙ e
      ] in
        there) in
    record {
      free = s.free;
      positive = s.positive;
      below = s.below;
      distinct = s.distinct;
      on_cpu = λ d i e. s.on_cpu d i (old d i e);
      one_cpu = λ d d' i e q. s.one_cpu d d' i (old d i e) (old d' i q);
    }

pub leave_cpu-off :
    (c i : ℕ) (k : Kernel) → IsSound k → k.cpu c ≡ some i → (d : ℕ) → (leave_cpu c k).cpu d ≢ some i
leave_cpu-off c i k s here d e = elim (ℕ_discrete c d) [
  | yes q ↦
      let gone : update k.cpu c none d ≡ none =
        subst (λ x. update k.cpu c none x ≡ none) q (update_self k.cpu c none) in
      absurd (cc)
  | no ne ↦ ne (s.one_cpu c d i here (sym (update_ne k.cpu c d none ne) ∙ e))
]

-- The process on processor `c` takes another state and the processor lets go of it.
pub switch-IsSound :
    (c i : ℕ) (p : Proc) (k : Kernel)
    → IsSound k
    → k.cpu c ≡ some i
    → p.pid ≡ (k.proc i).pid
    → is_unused p.state ≡ false
    → IsSound (leave_cpu c (set_proc i p k))
switch-IsSound c i p k s here pid in_use =
    let runs = s.on_cpu c i here in
    set_state-IsSound i p (leave_cpu c k) (leave_cpu-IsSound c k s) pid (rw (in_use, runs) refl)
      (leave_cpu-off c i k s here)

runnable-in_use : (s : ProcState) → is_runnable s ≡ true → is_unused s ≡ false
runnable-in_use runnable e = refl
runnable-in_use unused e = cc
runnable-in_use used e = cc
runnable-in_use sleeping e = cc
runnable-in_use running e = cc
runnable-in_use zombie e = cc

some_inj : {a b : ℕ} → some a ≡ some b → a ≡ b
some_inj e = cc

pub schedule-IsSound :
    (c i : ℕ) (k : Kernel) → IsSound k → k.cpu c ≡ none → IsSound (schedule c i k)
unfolding schedule
schedule-IsSound c i k s idle = elim (Bool-cases (is_runnable (k.proc i).state)) [
  | inr e ↦ rw e s
  | inl e ↦
      let p : Proc = record (k.proc i) { state = running } in
      let off : (d : ℕ) → k.cpu d ≢ some i = λ d q. (let r = s.on_cpu d i q in absurd (cc)) in
      let in_use : is_unused (k.proc i).state ≡ false = runnable-in_use (k.proc i).state e in
      let t = set_state-IsSound i p k s refl (sym in_use) off in
      rw e (record {
        free = t.free;
        positive = t.positive;
        below = t.below;
        distinct = t.distinct;
        on_cpu = λ d j q. elim (ℕ_discrete c d) [
          | yes w ↦
              let mine : some i ≡ some j =
                sym
                  (subst (λ x. update k.cpu c (some i) x ≡ some i) w (update_self k.cpu c (some i)))
                ∙ q in
              subst (λ x. (update k.proc i p x).state ≡ running) (some_inj mine)
                (ap (λ f. f.state) (update_self k.proc i p))
          | no ne ↦ t.on_cpu d j (sym (update_ne k.cpu c d (some i) ne) ∙ q)
        ];
        one_cpu = λ d d' j q q'. elim (ℕ_discrete c d) [
          | yes w ↦ elim (ℕ_discrete c d') [
            | yes w' ↦ sym w ∙ w'
            | no ne' ↦
                let mine : some i ≡ some j =
                  sym (
                    subst (λ x. update k.cpu c (some i) x ≡ some i) w
                      (update_self k.cpu c (some i)))
                  ∙ q in
                absurd (off d' (sym (update_ne k.cpu c d' (some i) ne') ∙ q' ∙ sym mine))
          ]
          | no ne ↦ elim (ℕ_discrete c d') [
            | yes w' ↦
                let mine : some i ≡ some j =
                  sym (
                    subst (λ x. update k.cpu c (some i) x ≡ some i) w'
                      (update_self k.cpu c (some i)))
                  ∙ q' in
                absurd (off d (sym (update_ne k.cpu c d (some i) ne) ∙ q ∙ sym mine))
            | no ne' ↦
                s.one_cpu d d' j (sym (update_ne k.cpu c d (some i) ne) ∙ q)
                  (sym (update_ne k.cpu c d' (some i) ne') ∙ q')
          ]
        ];
      })
]
