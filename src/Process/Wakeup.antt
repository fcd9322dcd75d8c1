-- ===== src/Process/Wakeup.antt =====
-- What `wakeup` of kernel/proc.c does to each process.
use native.Mathlib.Decide.{ℕ_discrete}
use raid_system.Prelude.{
  ℕ, zero, suc, ◌+◌, ◌≤◌, ◌<◌, ◌≡◌, ◌≢◌, refl, ◌∙◌, subst, ap, arith, Bool, true, false, not, ◌&&◌,
  ◌⊎◌, ◌==◌, if◌then◌else◌, update_self, update_ne, inl, inr, Bool-cases, ==_ne, ==_refl,
}
use raid_system.Process.{
  ProcState, unused, used, sleeping, runnable, running, zombie, is_used, is_sleeping, Chan, null,
  address, at_proc, same_chan, Proc, Kernel, nproc, sleep, wake, wakeup_from, wakeup,
}

-- Process `j` sleeps on the channel and is not the caller.
abbrev pub is_woken : Chan → ℕ → ℕ → Proc → Bool
is_woken chan me j p = not (j == me) && (is_sleeping p.state && same_chan p.chan chan)

abbrev pub rouse : Chan → ℕ → ℕ → Proc → Proc
rouse chan me j p = if is_woken chan me j p then record p { state = runnable } else p

used-sleeping : (s : ProcState) → is_used s ≡ true → is_sleeping s ≡ false
used-sleeping used e = refl
used-sleeping unused e = cc
used-sleeping sleeping e = cc
used-sleeping runnable e = cc
used-sleeping running e = cc
used-sleeping zombie e = cc

module _ (chan : Chan) (me : ℕ) where
  wake_self : (i : ℕ) (k : Kernel) → (wake chan me i k).proc i ≡ rouse chan me i (k.proc i)
  unfolding wake
  wake_self i k = elim (Bool-cases (i == me)) [
    | inl m ↦ rw m refl
    | inr m ↦ elim (Bool-cases (is_used (k.proc i).state)) [
      | inl u ↦ rw (m, u, used-sleeping (k.proc i).state u) refl
      | inr u ↦ elim (Bool-cases (is_sleeping (k.proc i).state && same_chan (k.proc i).chan chan)) [
        | inl z ↦ rw (m, u, z) (update_self k.proc i (record (k.proc i) { state = runnable }))
        | inr z ↦ rw (m, u, z) refl
      ]
    ]
  ]

  wake_ne : (i j : ℕ) (k : Kernel) → i ≢ j → (wake chan me i k).proc j ≡ k.proc j
  unfolding wake
  wake_ne i j k ne = elim (Bool-cases (i == me)) [
    | inl m ↦ rw m refl
    | inr m ↦ elim (Bool-cases (is_used (k.proc i).state)) [
      | inl u ↦ rw (m, u) refl
      | inr u ↦ elim (Bool-cases (is_sleeping (k.proc i).state && same_chan (k.proc i).chan chan)) [
        | inl z ↦ rw (m, u, z) (update_ne k.proc i j (record (k.proc i) { state = runnable }) ne)
        | inr z ↦ rw (m, u, z) refl
      ]
    ]
  ]

  wakeup_from_outside :
      (n i j : ℕ) (k : Kernel)
      → (j < i) ⊎ (i + n ≤ j)
      → (wakeup_from chan me n i k).proc j ≡ k.proc j
  unfolding wakeup_from
  wakeup_from_outside zero i j k out = refl
  wakeup_from_outside (suc n) i j k out =
      wakeup_from_outside n (suc i) j (wake chan me i k)
        (elim out [ inl h ↦ inl (omega arith) | inr h ↦ inr (omega arith) ])
      ∙ wake_ne i j k (elim out [ inl h ↦ omega arith | inr h ↦ omega arith ])

  wakeup_from_inside :
      (n i j : ℕ) (k : Kernel)
      → i ≤ j
      → j < i + n
      → (wakeup_from chan me n i k).proc j ≡ rouse chan me j (k.proc j)
  unfolding wakeup_from
  wakeup_from_inside zero i j k lo hi = absurd (omega arith)
  wakeup_from_inside (suc n) i j k lo hi = elim (ℕ_discrete i j) [
    | yes e ↦
        wakeup_from_outside n (suc i) j (wake chan me i k) (inl (omega arith))
        ∙ subst (λ x. (wake chan me i k).proc x ≡ rouse chan me x (k.proc x)) e (wake_self i k)
    | no ne ↦
        wakeup_from_inside n (suc i) j (wake chan me i k) (omega arith) (omega arith)
        ∙ ap (rouse chan me j) (wake_ne i j k ne)
  ]

  -- `wakeup` makes exactly the processes runnable that sleep on the channel, but for the caller,
  -- and changes nothing else of any process in the table.
  pub wakeup_lem :
      (j : ℕ) (k : Kernel) → j < nproc → (wakeup chan me k).proc j ≡ rouse chan me j (k.proc j)
  unfolding wakeup
  wakeup_lem j k h = wakeup_from_inside nproc 0 j k (omega arith) (omega arith)

pub same_chan_refl : (chan : Chan) → same_chan chan chan ≡ true
same_chan_refl null = refl
same_chan_refl (at_proc i) = ==_refl i
same_chan_refl (address a) = ==_refl a

-- A process that went to sleep on a channel is runnable after any other process wakes the
-- channel, whatever the others did to the table but to that process.
pub wakeup-sleep :
    (c i me : ℕ) (chan : Chan) (k l : Kernel)
    → i < nproc
    → i ≢ me
    → l.proc i ≡ (sleep c i chan k).proc i
    → ((wakeup chan me l).proc i).state ≡ runnable
unfolding sleep
wakeup-sleep c i me chan k l h ne same =
    let p : Proc = record (k.proc i) { chan = chan; state = sleeping } in
    let e : l.proc i ≡ p = same ∙ update_self k.proc i p in
    ap (λ (q : Proc). q.state) (wakeup_lem chan me i l h)
    ∙ rw (e, ==_ne i me ne, same_chan_refl chan) refl

-- A woken process differs in its state only.
pub rouse-parent : (chan : Chan) (me j : ℕ) (p : Proc) → (rouse chan me j p).parent ≡ p.parent
rouse-parent chan me j p = elim (Bool-cases (is_woken chan me j p)) [
  | inl e ↦ rw e refl
  | inr e ↦ rw e refl
]
