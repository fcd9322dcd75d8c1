-- ===== src/Log/Commit.antt =====
-- A commit of kernel/log.c and the crashes in the midst of it.
use raid_system.Prelude.{
  ℕ, ◌+◌, ◌≤◌, ◌<◌, ◌≡◌, ◌≢◌, refl, sym, ◌∙◌, subst, arith, false, some, List, length, lt→ltb,
  length-replicate,
}
use raid_system.Log.{
  Log, logsize, install_from, install_trans, copy_blocks, write_head, recover_from_log, write_from,
  write_log, commit,
}
use raid_system.Log.Store.{Contents}
use raid_system.Log.Install.{
  home, IsApart, IsDistinct, IsLogged, IsPinned, Replays, install_from-Replays,
}
use raid_system.Log.Copy.{IsWritten, write_from-IsWritten, write_head_lem}
use raid_system.Log.Recover.{crash, recover_from_log-Recovers}

-- A log with a transaction that is not committed yet: its blocks are different ones, outside
-- the log and its header, with buffers that are pinned, and the header on the disk is clear.
pub record IsReady (s : Log) : Type 0 where
  pub inside : s.lh.n ≤ length s.lh.block
  pub room : s.lh.n ≤ length s.head.block
  pub fits : s.lh.n ≤ logsize
  pub apart : IsApart s.start s.lh.block s.lh.n
  pub header : (i : ℕ) → i < s.lh.n → home s.lh.block i ≢ s.start
  pub distinct : IsDistinct s.lh.block s.lh.n
  pub pinned : IsPinned false s.lh.block 0 s.lh.n s.buffers
  pub clear : s.head.n ≡ 0

-- A block that is not one of those in which the log keeps the transaction.
abbrev pub IsOutside : Log → ℕ → Type 0
IsOutside s i = (j : ℕ) → j < s.lh.n → i ≢ s.start + j + 1

-- All blocks of the transaction are at home, and no other block has changed but in the log.
pub record IsCommitted (s : Log) (disk : ℕ → Contents) : Type 0 where
  pub home_blocks :
      (j : ℕ) → j < s.lh.n → disk (home s.lh.block j) ≡ s.buffers.buffer (home s.lh.block j)
  pub others :
      (i : ℕ)
      → IsOutside s i
      → ((j : ℕ) → j < s.lh.n → i ≢ home s.lh.block j)
      → disk i ≡ s.buffers.disk i

module _ (s : Log) (ready : IsReady s) where
  -- A crash in `write_log` of a transaction that is ready (its blocks are different, outside the log
  -- and its header, and pinned; the header on the disk is clear), after any number of its writes,
  -- loses the whole transaction: the recovery succeeds and every block outside the log is on the
  -- disk as it was before.
  pub recover_from_log-write_from :
      (k : ℕ)
      → k ≤ s.lh.n
      → (s₁ : Log) × (r : Log) × (write_from k 0 s ≡ some s₁)
        × (recover_from_log (crash s₁) ≡ some r)
        × ((i : ℕ) → IsOutside s i → r.buffers.disk i ≡ s.buffers.disk i)
  recover_from_log-write_from k h =
      let w = write_from-IsWritten s.lh.n s 0 k ready.inside (omega arith) ready.apart in
      let s₁ : Log = record s { buffers = w.out } in
      let none_below : (j : ℕ) → ¬ (j < s.head.n) = λ j l. absurd (omega (arith, ready.clear)) in
      let r =
        recover_from_log-Recovers w.out.disk (crash s₁) (omega (arith, ready.clear))
          (omega (arith, ready.clear)) (λ i j l. absurd (none_below i l))
          (λ i j l. absurd (none_below i l)) (λ j l. absurd (none_below j l)) in
      (
        s₁,
        r.out,
        w.returns,
        r.returns,
        λ i out.
            r.kept i (λ j l. absurd (none_below j l))
            ∙ (w.away i (λ j l hj. out j (omega arith))).0,
      )

  written : IsWritten s 0 s.lh.n (write_log s)
  unfolding write_log
  written = write_from-IsWritten s.lh.n s 0 s.lh.n ready.inside (omega arith) ready.apart

  abbrev logged : Log
  logged = record s { buffers = written.out }

  abbrev headed :
      (block : List ℕ) × (write_head logged
        ≡ some (record logged { head = record { n = s.lh.n; block = block } }))
      × (length block ≡ length s.head.block)
      × ((j : ℕ) → j < s.lh.n → home block j ≡ home s.lh.block j)
  headed = write_head_lem logged ready.inside ready.room

  abbrev marked : Log
  marked = record logged { head = record { n = s.lh.n; block = headed.0 } }

  written-IsLogged : IsLogged s.start s.lh.block s.lh.n s.buffers.buffer written.out
  written-IsLogged j h = (written.copied j (omega arith) (omega arith)).1

  written-IsPinned : IsPinned false s.lh.block 0 s.lh.n written.out
  written-IsPinned e j l h = rw written.pins (ready.pinned e j l h)

  installs :
      (k : ℕ) → k ≤ s.lh.n → Replays s.buffers.buffer marked 0 k (install_from false k 0 marked)
  installs k h =
      install_from-Replays s.buffers.buffer s.lh.n false marked 0 k ready.inside (omega arith)
        ready.apart ready.distinct written-IsLogged written-IsPinned

  -- The log on the disk keeps the transaction while it is installed.
  installed-log :
      (k : ℕ) (h : k ≤ s.lh.n) (j : ℕ)
      → j < s.lh.n
      → (installs k h).out.disk (s.start + j + 1) ≡ s.buffers.buffer (home s.lh.block j)
  installed-log k h j hj =
      (installs k h).kept (s.start + j + 1) (λ i l hi e. ready.apart i j (omega arith) hj (sym e))
      ∙ (written.copied j (omega arith) (omega arith)).0

  installed-other :
      (k : ℕ) (h : k ≤ s.lh.n) (i : ℕ)
      → IsOutside s i
      → ((j : ℕ) → j < s.lh.n → i ≢ home s.lh.block j)
      → (installs k h).out.disk i ≡ s.buffers.disk i
  installed-other k h i out ne =
      (installs k h).kept i (λ j l hj. ne j (omega arith))
      ∙ (written.away i (λ j l hj. out j (omega arith))).0

  -- A crash after the header of a transaction that was ready (its blocks are different, outside
  -- the log and its header, and pinned) is written, after any number of the writes of
  -- `install_trans`, keeps the whole transaction: the recovery succeeds, every block of the
  -- transaction is on the disk as its buffer was, and the other blocks outside the log are as
  -- they were.
  pub recover_from_log-install_from :
      (k : ℕ)
      → k ≤ s.lh.n
      → (s₁ : Log) × (s₂ : Log) × (s₃ : Log) × (r : Log) × (write_log s ≡ some s₁)
        × (write_head s₁ ≡ some s₂)
        × (install_from false k 0 s₂ ≡ some s₃)
        × (recover_from_log (crash s₃) ≡ some r)
        × IsCommitted s r.buffers.disk
  recover_from_log-install_from k h =
      let s₃ : Log = record marked { buffers = (installs k h).out } in
      let same = headed.3 in
      let r =
        recover_from_log-Recovers s.buffers.buffer (crash s₃) (rw headed.2 ready.room)
          (rw (length-replicate {A = ℕ} logsize 0) ready.fits)
          (λ i j hi hj. rw (same i hi) (ready.apart i j hi hj))
          (λ i j hi hj ne. rw (same i hi, same j hj) (ready.distinct i j hi hj ne))
          (λ j hj. rw (same j hj) (installed-log k h j hj)) in
      (
        logged,
        marked,
        s₃,
        r.out,
        written.returns,
        headed.1,
        (installs k h).returns,
        r.returns,
        record {
          home_blocks = λ j hj.
              subst (λ x. r.out.buffers.disk x ≡ s.buffers.buffer x) (same j hj) (r.done j hj);
          others = λ i out ne.
              r.kept i (λ j hj. rw (same j hj) (ne j hj)) ∙ installed-other k h i out ne;
        },
      )

  -- `commit` of a transaction that is not empty and is ready (its blocks are different, outside
  -- the log and its header, and pinned; the header on the disk is clear) succeeds, brings all its
  -- blocks home and no other to the disk, and leaves the log empty in memory and on the disk.
  pub commit-IsCommitted :
      0 < s.lh.n
      → (s' : Log) × (commit s ≡ some s')
        × IsCommitted s s'.buffers.disk
        × (s'.lh.n ≡ 0)
        × (s'.head.n ≡ 0)
  unfolding commit install_trans write_head copy_blocks
  commit-IsCommitted some_blocks =
      let r = installs s.lh.n (omega arith) in
      let s' : Log = record marked {
        lh = record s.lh { n = 0 };
        head = record { n = 0; block = headed.0 };
        buffers = r.out;
      } in
      (
        s',
        rw (lt→ltb 0 s.lh.n some_blocks, written.returns, headed.1, r.returns),
        record {
          home_blocks = λ j hj. r.done j (omega arith) (omega arith);
          others = installed-other s.lh.n (omega arith);
        },
        refl,
        refl,
      )
