-- ===== src/Log/Install.antt =====
-- The loop of `install_trans` of kernel/log.c: it brings the logged blocks home.
use raid_system.Prelude.{
  ℕ, zero, suc, if◌then◌else◌, ◌+◌, ◌≤◌, ◌<◌, ◌≡◌, ◌≢◌, refl, sym, ◌∙◌, subst, arith, Bool, false,
  Option, some, List, length, get_or, get_elem?-eq-get_or,
}
use native.Mathlib.Decide.{ℕ_discrete}
use raid_system.Log.{Log, install_from}
use raid_system.Log.Store.{
  Contents, Buffers, bread, copy_to, bwrite, update_self, update_ne, bunpin-ne, bunpin,
}

-- Where the block with index `j` of the header belongs.
abbrev pub home : List ℕ → ℕ → ℕ
home block j = get_or block j 0

-- No block of the header belongs into the log's own blocks.
abbrev pub IsApart : ℕ → List ℕ → ℕ → Type 0
IsApart start block n = (i j : ℕ) → i < n → j < n → home block i ≢ start + j + 1

abbrev pub IsDistinct : List ℕ → ℕ → Type 0
IsDistinct block n = (i j : ℕ) → i < n → j < n → i ≢ j → home block i ≢ home block j

-- The buffers of the log's blocks hold what `v` has for their homes.
abbrev pub IsLogged : ℕ → List ℕ → ℕ → (ℕ → Contents) → Buffers → Type 0
IsLogged start block n v b = (j : ℕ) → j < n → bread (start + j + 1) b ≡ v (home block j)

-- The buffers from index `lo` on are pinned, if they are to be let go of.
abbrev pub IsPinned : Bool → List ℕ → ℕ → ℕ → Buffers → Type 0
IsPinned recovering block lo n b =
    recovering ≡ false → (j : ℕ) → lo ≤ j → j < n → 0 < b.pins (home block j)

-- `k` rounds from `lo` on succeed, bring their blocks home and leave other blocks as they are.
pub record Replays (v : ℕ → Contents) (s : Log) (lo k : ℕ) (result : Option Log) : Type 0 where
  pub out : Buffers
  pub returns : result ≡ some (record s { buffers = out })
  pub kept :
      (i : ℕ)
      → ((j : ℕ) → lo ≤ j → j < lo + k → i ≢ home s.lh.block j)
      → out.disk i ≡ s.buffers.disk i
  pub stays : (i : ℕ) → s.buffers.disk i ≡ v i → out.disk i ≡ v i
  pub done : (j : ℕ) → lo ≤ j → j < lo + k → out.disk (home s.lh.block j) ≡ v (home s.lh.block j)

module _ (v : ℕ → Contents) (n : ℕ) (recovering : Bool) where
  module _ (s : Log) (lo k : ℕ) (inside : n ≤ length s.lh.block) (here : lo < n)
      (apart : IsApart s.start s.lh.block n) (distinct : IsDistinct s.lh.block n)
      (logged : IsLogged s.start s.lh.block n v s.buffers)
      (pinned : IsPinned recovering s.lh.block lo n s.buffers) where
    abbrev h : ℕ
    h = home s.lh.block lo

    abbrev moved : Buffers
    moved = bwrite h (copy_to h (bread (s.start + lo + 1) s.buffers) s.buffers)

    abbrev let_go :
        (pins : ℕ → ℕ) × ((if recovering then some moved else bunpin h moved)
          ≡ some (record moved { pins = pins }))
        × ((i : ℕ) → h ≢ i → pins i ≡ s.buffers.pins i)
    let_go = bunpin-ne recovering h moved (λ e. pinned e lo (omega arith) here)

    abbrev after : Buffers
    after = record moved { pins = let_go.0 }

    after-IsLogged : IsLogged s.start s.lh.block n v after
    after-IsLogged j hj =
        update_ne s.buffers.buffer h (s.start + j + 1) _ (apart lo j here hj) ∙ logged j hj

    after-IsPinned : IsPinned recovering s.lh.block (suc lo) n after
    after-IsPinned e j l hj =
        let same = let_go.2 (home s.lh.block j) (distinct lo j here hj (omega arith)) in
        rw same (pinned e j (omega arith) hj)

    after-home : after.disk h ≡ v h
    after-home = update_self s.buffers.disk h _ ∙ update_self s.buffers.buffer h _ ∙ logged lo here

    after-ne : (i : ℕ) → h ≢ i → after.disk i ≡ s.buffers.disk i
    after-ne i ne = update_ne s.buffers.disk h i _ ne

    after-stays : (i : ℕ) → s.buffers.disk i ≡ v i → after.disk i ≡ v i
    after-stays i e = elim (ℕ_discrete h i) [
      | yes eq ↦ subst (λ x. after.disk x ≡ v x) eq after-home
      | no ne ↦ after-ne i ne ∙ e
    ]

    install_from-suc :
        Replays v
          (record s { buffers = after })
          (suc lo)
          k
          (install_from recovering k (suc lo) (record s { buffers = after }))
        → Replays v s lo (suc k) (install_from recovering (suc k) lo s)
    unfolding install_from
    install_from-suc r = record {
      out = r.out;
      returns = rw (get_elem?-eq-get_or s.lh.block lo 0 (omega arith), let_go.1) r.returns;
      kept = λ i out.
          r.kept i (λ j l hj. out j (omega arith) (omega arith))
          ∙ after-ne i (λ e. out lo (omega arith) (omega arith) (sym e));
      stays = λ i e. r.stays i (after-stays i e);
      done = λ j l hj. elim (ℕ_discrete lo j) [
        | yes e ↦
            subst (λ x. r.out.disk (home s.lh.block x) ≡ v (home s.lh.block x)) e
              (r.stays h after-home)
        | no ne ↦ r.done j (omega arith) (omega arith)
      ];
    }

  pub install_from-Replays :
      (s : Log) (lo k : ℕ)
      → n ≤ length s.lh.block
      → lo + k ≤ n
      → IsApart s.start s.lh.block n
      → IsDistinct s.lh.block n
      → IsLogged s.start s.lh.block n v s.buffers
      → IsPinned recovering s.lh.block lo n s.buffers
      → Replays v s lo k (install_from recovering k lo s)
  unfolding install_from
  install_from-Replays s lo zero inside fits apart distinct logged pinned = record {
    out = s.buffers;
    returns = refl;
    kept = λ i out. refl;
    stays = λ i e. e;
    done = λ j l hj. absurd (omega arith);
  }
  install_from-Replays s lo (suc k) inside fits apart distinct logged pinned =
      install_from-suc s lo k inside (omega arith) apart distinct logged pinned (
        install_from-Replays
          (record s { buffers = after s lo k inside (omega arith) apart distinct logged pinned })
          (suc lo) k inside (omega arith) apart distinct
          (after-IsLogged s lo k inside (omega arith) apart distinct logged pinned)
          (after-IsPinned s lo k inside (omega arith) apart distinct logged pinned))
