-- ===== src/Log/Space.antt =====
-- `log_write` of kernel/log.c: a block enters the transaction once.
use raid_system.Prelude.{
  ◌>>◌, ℕ, suc, ◌+◌, ◌-◌, ◌≤◌, ◌<◌, ◌≡◌, ◌≢◌, refl, sym, ◌∙◌, subst, arith, Option, some, length,
  set, get_elem?-eq-get_or, get_or-set_self, get_or-set_ne, length-set, inl, inr, ==_refl,
  set-get_or, ==_ne, ◌==◌, lt→leb_false, le→ltb, if◌then◌else◌, get_elem?,
}
use native.Mathlib.Decide.{ℕ_discrete}
use raid_system.Log.{log_write, Log, logsize, find_logged}
use raid_system.Log.Store.{bpin, update, update_self, update_ne}
use raid_system.Log.Install.{home}
use raid_system.Log.Commit.{IsReady}
use raid_system.Log.Find.{Finds, find_logged-Finds}

-- The transaction has its blocks, in their places, and behind them at most one more, which is the
-- block; the block is in it, and it is still well-formed; no buffer's contents have changed.
pub record Enters (blockno : ℕ) (s s' : Log) : Type 0 where
  pub ready : IsReady s'
  pub entered : (j : ℕ) × (j < s'.lh.n) × (home s'.lh.block j ≡ blockno)
  pub earlier : s.lh.n ≤ s'.lh.n
  pub kept : (j : ℕ) → j < s.lh.n → home s'.lh.block j ≡ home s.lh.block j
  pub bound : s'.lh.n ≤ suc s.lh.n
  pub same : s'.buffers.buffer ≡ s.buffers.buffer
  pub same_disk : s'.buffers.disk ≡ s.buffers.disk

module _ (s : Log) (blockno : ℕ) (ready : IsReady s) (size_block : length s.lh.block ≡ logsize)
    (size_head : length s.head.block ≡ logsize)
    (outside : (j : ℕ) → j < logsize → blockno ≢ s.start + j + 1) (not_header : blockno ≢ s.start)
    (all_outside : (i j : ℕ) → i < s.lh.n → j < logsize → home s.lh.block i ≢ s.start + j + 1)
    (space : s.lh.n < logsize) (log_space : s.lh.n < s.size - 1) (running : 0 < s.outstanding) where
  found : Finds blockno s.lh.block 0 s.lh.n (find_logged blockno s.lh.block s.lh.n 0)
  found = find_logged-Finds blockno s.lh.block 0 s.lh.n (omega (arith, ready.inside))

  added : Log
  added = record s {
    lh = record { n = suc s.lh.n; block = set s.lh.block s.lh.n blockno };
    buffers = bpin blockno s.buffers;
  }

  length-added : length (set s.lh.block s.lh.n blockno) ≡ logsize
  length-added = length-set s.lh.block s.lh.n blockno ∙ size_block

  home-last : home (set s.lh.block s.lh.n blockno) s.lh.n ≡ blockno
  home-last = get_or-set_self s.lh.block s.lh.n blockno 0 (omega (arith, size_block))

  home-old : (j : ℕ) → j < s.lh.n → home (set s.lh.block s.lh.n blockno) j ≡ home s.lh.block j
  home-old j h = get_or-set_ne s.lh.block s.lh.n j blockno 0 (omega arith)

  added-Enters : ((j : ℕ) → j < s.lh.n → home s.lh.block j ≢ blockno) → Enters blockno s added
  unfolding added
  added-Enters fresh = record {
    ready = record {
      inside = omega (arith, length-added);
      room = omega (arith, size_head);
      fits = omega arith;
      apart = λ i j hi hj. elim (ℕ_discrete s.lh.n i) [
        | yes e ↦
            subst (λ x. home (set s.lh.block s.lh.n blockno) x ≢ s.start + j + 1) e
              (rw home-last (outside j (omega arith)))
        | no ne ↦ rw (home-old i (omega arith)) (all_outside i j (omega arith) (omega arith))
      ];
      header = λ i hi. elim (ℕ_discrete s.lh.n i) [
        | yes e ↦
            subst (λ x. home (set s.lh.block s.lh.n blockno) x ≢ s.start) e
              (rw home-last not_header)
        | no ne ↦ rw (home-old i (omega arith)) (ready.header i (omega arith))
      ];
      distinct = λ i j hi hj ne. elim (ℕ_discrete s.lh.n i) [
        | yes e ↦
            subst
              (λ x. home (set s.lh.block s.lh.n blockno) x ≢ home (set s.lh.block s.lh.n blockno) j)
              e (rw (home-last, home-old j (omega arith)) (λ q. fresh j (omega arith) (sym q)))
        | no ni ↦ elim (ℕ_discrete s.lh.n j) [
          | yes e ↦
              subst
                (λ x.
                  home (set s.lh.block s.lh.n blockno) i ≢ home (set s.lh.block s.lh.n blockno) x)
                e (rw (home-last, home-old i (omega arith)) (fresh i (omega arith)))
          | no nj ↦
              rw (home-old i (omega arith), home-old j (omega arith))
                (ready.distinct i j (omega arith) (omega arith) ne)
        ]
      ];
      pinned = λ e j l h. elim (ℕ_discrete s.lh.n j) [
        | yes q ↦
            subst
              (λ x.
                0
                < update s.buffers.pins blockno (suc (s.buffers.pins blockno))
                    (home (set s.lh.block s.lh.n blockno) x))
              q
              (rw (home-last, update_self s.buffers.pins blockno (suc (s.buffers.pins blockno)))
                (omega arith))
        | no ne ↦
            rw
              (
                home-old j (omega arith),
                update_ne s.buffers.pins blockno (home s.lh.block j) (suc (s.buffers.pins blockno))
                    (λ q. fresh j (omega arith) (sym q)),
              )
              (ready.pinned e j l (omega arith))
      ];
      clear = ready.clear;
    };
    entered = (s.lh.n, omega arith, home-last);
    earlier = omega arith;
    kept = home-old;
    bound = omega arith;
    same = refl;
    same_disk = refl;
  }

  -- What `log_write` does behind its guards.
  enter : ℕ → Option Log
  enter i = do
    get_elem? s.lh.block i
    let block = set s.lh.block i blockno
    if i == s.lh.n
        then some (record s {
          lh = record { n = suc s.lh.n; block = block };
          buffers = bpin blockno s.buffers;
        })
        else some (record s { lh = record { n = s.lh.n; block = block } })

  log_write-enter : log_write blockno s ≡ enter found.index
  unfolding log_write enter
  log_write-enter =
      rw
        (
          lt→leb_false logsize s.lh.n space,
          lt→leb_false (s.size - 1) s.lh.n log_space,
          le→ltb s.outstanding 1 running,
          found.returns,
        )
        refl

  enter-last : found.index ≡ s.lh.n → enter found.index ≡ some added
  unfolding enter added
  enter-last e =
      rw (e, get_elem?-eq-get_or s.lh.block s.lh.n 0 (omega (arith, size_block)), ==_refl s.lh.n)
        refl

  enter-found :
      found.index < s.lh.n → home s.lh.block found.index ≡ blockno → enter found.index ≡ some s
  unfolding enter
  enter-found h e =
      rw
        (
          get_elem?-eq-get_or s.lh.block found.index 0 (omega (arith, size_block)),
          ==_ne found.index s.lh.n (omega arith),
          sym e,
          set-get_or s.lh.block found.index 0 (omega (arith, size_block)),
        )
        refl

  -- `log_write` of a block outside the log and its header succeeds, in a running transaction that
  -- is well-formed, has none of its blocks in the log and has space left there, with both headers
  -- of the full length. The transaction then has its blocks in their places and the block, behind
  -- them if it was not one of them, so that it is at most one block longer; it stays well-formed,
  -- with no block in it twice. What the buffers and the disk hold is as it was.
  pub log_write-Enters : (s' : Log) × (log_write blockno s ≡ some s') × Enters blockno s s'
  log_write-Enters = elim found.place [
    | inl (h, e) ↦ (
      s,
      log_write-enter ∙ enter-found (omega (arith, h)) e,
      record {
        ready = ready;
        entered = (found.index, omega (arith, h), e);
        earlier = omega arith;
        kept = λ j l. refl;
        bound = omega arith;
        same = refl;
        same_disk = refl;
      },
    )
    | inr e ↦ (
      added,
      log_write-enter ∙ enter-last (omega (arith, e)),
      added-Enters (λ j h. found.before j (omega arith) (omega (arith, e))),
    )
  ]
