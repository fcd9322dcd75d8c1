-- ===== src/Log/Tests.antt =====
-- A log with two blocks in its transaction, and the theorems at it.
use raid_system.Prelude.{
  ℕ, zero, suc, ◌+◌, ◌<◌, ◌≡◌, ◌≢◌, refl, arith, false, some, List, ◌∷◌, replicate,
}
use raid_system.Log.{
  LogHeader, Log, log_write, commit, write_from, write_log, write_head, install_from,
  recover_from_log,
}
use raid_system.Log.Store.{Buffers}
use raid_system.Log.Install.{home}
use raid_system.Log.Recover.{crash}
use raid_system.Log.Commit.{
  IsReady, IsOutside, IsCommitted, recover_from_log-write_from, recover_from_log-install_from,
  commit-IsCommitted,
}
use raid_system.Log.Space.{Enters, log_write-Enters}

abbrev blocks : List ℕ
blocks = 40 ∷ 41 ∷ replicate 28 0

abbrev clear_head : LogHeader
clear_head = record { n = 0; block = replicate 30 0 }

abbrev two_blocks : LogHeader
two_blocks = record { n = 2; block = blocks }

abbrev numbered : Buffers
numbered = record { buffer = λ i x. i; disk = λ i x. 0; pins = λ i. 1 }

abbrev two : Log
two = record {
  start = 2;
  size = 31;
  outstanding = 1;
  committing = false;
  lh = two_blocks;
  head = clear_head;
  buffers = numbered;
}

below_two : (P : ℕ → Type 0) → P 0 → P 1 → (i : ℕ) → i < 2 → P i
below_two P a b zero h = a
below_two P a b (suc zero) h = b
below_two P a b (suc (suc i)) h = absurd (omega arith)

two-IsReady : IsReady two
two-IsReady = record {
  inside = omega arith;
  room = omega arith;
  fits = omega arith;
  apart = λ i j hi hj.
      below_two (λ i. home blocks i ≢ 2 + j + 1) (λ e. absurd (omega arith))
        (λ e. absurd (omega arith)) i hi;
  header = λ i hi.
      below_two (λ i. home blocks i ≢ 2) (λ e. absurd (omega arith)) (λ e. absurd (omega arith)) i
        hi;
  distinct = λ i j hi hj.
      below_two (λ i. i ≢ j → home blocks i ≢ home blocks j)
        (below_two (λ j. 0 ≢ j → 40 ≢ home blocks j) (λ ne. absurd (ne refl))
          (λ ne e. absurd (omega arith)) j hj)
        (below_two (λ j. 1 ≢ j → 41 ≢ home blocks j) (λ ne e. absurd (omega arith))
          (λ ne. absurd (ne refl)) j hj)
        i hi;
  pinned = λ e j l h. omega arith;
  clear = refl;
}

recover_from_log-write_from_example :
    (s₁ : Log) × (r : Log) × (write_from 1 0 two ≡ some s₁)
    × (recover_from_log (crash s₁) ≡ some r)
    × ((i : ℕ) → IsOutside two i → r.buffers.disk i ≡ two.buffers.disk i)
recover_from_log-write_from_example = recover_from_log-write_from two two-IsReady 1 (omega arith)

recover_from_log-install_from_example :
    (s₁ : Log) × (s₂ : Log) × (s₃ : Log) × (r : Log) × (write_log two ≡ some s₁)
    × (write_head s₁ ≡ some s₂)
    × (install_from false 1 0 s₂ ≡ some s₃)
    × (recover_from_log (crash s₃) ≡ some r)
    × IsCommitted two r.buffers.disk
recover_from_log-install_from_example =
    recover_from_log-install_from two two-IsReady 1 (omega arith)

commit-IsCommitted_example :
    (s' : Log) × (commit two ≡ some s')
    × IsCommitted two s'.buffers.disk
    × (s'.lh.n ≡ 0)
    × (s'.head.n ≡ 0)
commit-IsCommitted_example = commit-IsCommitted two two-IsReady (omega arith)

log_write-Enters_example : (s' : Log) × (log_write 50 two ≡ some s') × Enters 50 two s'
log_write-Enters_example =
    log_write-Enters two 50 two-IsReady refl refl (λ j h e. absurd (omega arith))
      (λ e. absurd (omega arith))
      (λ i j hi hj.
        below_two (λ i. home blocks i ≢ 2 + j + 1) (λ e. absurd (omega arith))
          (λ e. absurd (omega arith)) i hi)
      (omega arith) (omega arith) (omega arith)
