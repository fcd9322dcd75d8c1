-- ===== src/Log/Recover.antt =====
-- `recover_from_log` of kernel/log.c, run after a crash.
use raid_system.Prelude.{
  ℕ, ◌≤◌, ◌<◌, ◌≡◌, ◌≢◌, refl, subst, arith, true, false, Option, some, List, length, replicate,
}
use raid_system.Log.{
  LogHeader, Log, logsize, install_from, install_trans, copy_blocks, read_head, write_head,
  recover_from_log,
}
use raid_system.Log.Store.{Contents, crashed}
use raid_system.Log.Install.{home, IsApart, IsDistinct, IsLogged, Replays, install_from-Replays}
use raid_system.Log.Copy.{read_head_lem}

-- A crash leaves the disk alone, where the header is too.
abbrev pub crash : Log → Log
crash s = record {
  start = s.start;
  size = s.size;
  outstanding = 0;
  committing = false;
  lh = record { n = 0; block = replicate logsize 0 };
  head = s.head;
  buffers = crashed s.buffers;
}

-- Recovery succeeds, brings the logged blocks home, leaves the others and clears the log.
pub record Recovers (v : ℕ → Contents) (s : Log) (result : Option Log) : Type 0 where
  pub out : Log
  pub returns : result ≡ some out
  pub kept :
      (i : ℕ)
      → ((j : ℕ) → j < s.head.n → i ≢ home s.head.block j)
      → out.buffers.disk i ≡ s.buffers.disk i
  pub done :
      (j : ℕ) → j < s.head.n → out.buffers.disk (home s.head.block j) ≡ v (home s.head.block j)
  pub clear : out.head.n ≡ 0

module _ (v : ℕ → Contents) (s : Log) (inside : s.head.n ≤ length s.head.block)
    (room : s.head.n ≤ length s.lh.block) (apart : IsApart s.start s.head.block s.head.n)
    (distinct : IsDistinct s.head.block s.head.n)
    (logged : IsLogged s.start s.head.block s.head.n v s.buffers) where
  abbrev numbers :
      (block : List ℕ) × (read_head s
        ≡ some (record s { lh = record { n = s.head.n; block = block } }))
      × (length block ≡ length s.lh.block)
      × ((j : ℕ) → j < s.head.n → home block j ≡ home s.head.block j)
  numbers = read_head_lem s inside room

  abbrev header : LogHeader
  header = record { n = s.head.n; block = numbers.0 }

  found : Log
  found = record s { lh = header }

  replays : Replays v found 0 s.head.n (install_from true s.head.n 0 found)
  unfolding found
  replays =
      install_from-Replays v s.head.n true found 0 s.head.n (rw numbers.2 room) (omega arith)
        (λ i j hi hj. rw (numbers.3 i hi) (apart i j hi hj))
        (λ i j hi hj ne. rw (numbers.3 i hi, numbers.3 j hj) (distinct i j hi hj ne))
        (λ j hj. rw (numbers.3 j hj) (logged j hj)) (λ e. absurd (cc))

  pub recover_from_log-Recovers : Recovers v s (recover_from_log s)
  unfolding found recover_from_log install_trans write_head copy_blocks
  recover_from_log-Recovers = record {
    out = record found {
      lh = record { n = 0; block = numbers.0 };
      head = record { n = 0; block = s.head.block };
      buffers = replays.out;
    };
    returns = rw (numbers.1, replays.returns);
    kept = λ i out.
        replays.kept i
          (λ j l h. let h' : j < s.head.n = omega arith in rw (numbers.3 j h') (out j h'));
    done = λ j h.
        subst (λ x. replays.out.disk x ≡ v x) (numbers.3 j h)
          (replays.done j (omega arith) (omega arith));
    clear = refl;
  }
