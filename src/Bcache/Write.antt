-- ===== src/Bcache/Write.antt =====
-- `bwrite` and `brelse` of kernel/bio.c, and the cache as the log of the file system sees it.
use raid_system.Prelude.{
  ℕ, ◌-◌, ◌<◌, ◌≡◌, ◌≢◌, refl, sym, ◌∙◌, ap, ap₂, fun_ext, true, Option, some, ◌>>=◌, ◌∷◌, ==_eq,
  ==_ne, ◌==◌, if◌then◌else◌, update, update_self, update_ne, lt→ltb, inl, inr, Bool-cases,
}
use native.Mathlib.Decide.{ℕ_discrete}
use mathlib.Core.Bool.{false≢true}
use raid_system.Log.Store.{Contents, Buffers, copy_to}
use raid_system.Log.Store
use raid_system.Bcache.{Buf, Bcache, with_buf, bread, bwrite, unlink, brelse}
use raid_system.Bcache.Find.{contains, IsFor, contains-unlink}
use raid_system.Bcache.Coherent.{
  IsIn, cell, contents, IsCoherent, Replaces, Replaces-IsCoherent, contents-new, contents-kept,
}
use raid_system.Bcache.Read.{bread-Reads}

-- A client's change to the bytes of the buffer `i`
abbrev pub stored : Bcache → ℕ → Contents → Bcache
stored s i v = with_buf s i (record (s.buf i) { bytes = v })

-- `bread`, a change to the buffer, `bwrite` and `brelse`.
unfoldable pub write_through : ℕ → ℕ → Contents → Bcache → Option Bcache
unfolding bread bwrite brelse
write_through dev blockno v s = do
  (i, s') ← bread dev blockno s
  brelse i (bwrite i (stored s' i v))

-- The buffers and the disk as the log has them
abbrev pub view : ℕ → (ℕ → ℕ) → Bcache → Buffers
view dev pins s = record { buffer = λ c. contents dev c s; disk = s.disk; pins = pins }

-- A used buffer that stays valid for the same block: it takes the contents `v`, and other blocks
-- are as before.
module _ (dev : ℕ) (s t : Bcache) (i : ℕ) (b : Buf) (ok : IsCoherent dev s) (there : IsIn i s)
    (step : Replaces s t i b) (on : (s.buf i).dev ≡ dev) (on' : b.dev ≡ dev)
    (at_block : b.blockno ≡ (s.buf i).blockno)
    (clean : b.valid ≡ true → b.refcnt ≡ 0 → b.bytes ≡ t.disk b.blockno) where
  fresh : (j : ℕ) → IsIn j s → j ≢ i → ¬ IsFor dev b.blockno (s.buf j)
  fresh j h ne key = ne (ok.unique j i b.blockno h there key (on, sym at_block))

  pub kept-IsCoherent : IsCoherent dev t
  kept-IsCoherent = Replaces-IsCoherent dev s t i b ok step on' fresh clean

  pub kept-contents :
      (c : ℕ) → contents dev c t ≡ (if b.blockno == c then cell t b.blockno b else contents dev c s)
  kept-contents c = elim (ℕ_discrete b.blockno c) [
    | yes e ↦ rw (==_eq b.blockno c e) (
        ap (λ x. contents dev x t) (sym e)
        ∙ contents-new dev s t i b ok step on' fresh kept-IsCoherent)
    | no ne ↦ rw (==_ne b.blockno c ne) (
        contents-kept dev s t i b ok step on' fresh kept-IsCoherent c (λ e. ne (sym e))
          (λ key. absurd (ne (at_block ∙ key.1))))
  ]

-- The buffer `i` has one reference less; the list has the same buffers, `i` in front if it is not
-- used any more.
pub record Releases (i : ℕ) (s : Bcache) (result : Option Bcache) : Type 0 where
  pub out : Bcache
  pub returns : result ≡ some out
  pub bufs : out.buf ≡ update s.buf i (record (s.buf i) { refcnt = (s.buf i).refcnt - 1 })
  pub order : (j : ℕ) → contains j out.order ≡ contains j s.order
  pub front : (s.buf i).refcnt ≡ 1 → out.order ≡ i ∷ unlink i s.order
  pub disk : out.disk ≡ s.disk

pub brelse-Releases :
    (i : ℕ) (s : Bcache) → IsIn i s → 0 < (s.buf i).refcnt → Releases i s (brelse i s)
unfolding brelse
brelse-Releases i s there used =
    let s' = with_buf s i (record (s.buf i) { refcnt = (s.buf i).refcnt - 1 }) in
    rw (lt→ltb 0 (s.buf i).refcnt used) (elim (Bool-cases ((s.buf i).refcnt - 1 == 0)) [
      | inl e ↦ record {
        out = record s' { order = i ∷ unlink i s.order };
        returns = rw e refl;
        bufs = refl;
        order = λ j. contains-unlink i j s.order there;
        front = λ one. refl;
        disk = refl;
      }
      | inr e ↦ record {
        out = s';
        returns = rw e refl;
        bufs = refl;
        order = λ j. refl;
        front = λ one. absurd (false≢true (sym e ∙ rw one refl));
        disk = refl;
      }
    ])

-- A buffer of block `blockno` takes the contents `v`, goes to the disk and is released.
module _ (dev blockno i : ℕ) (v : Contents) (s : Bcache) (ok : IsCoherent dev s) (there : IsIn i s)
    (key : IsFor dev blockno (s.buf i)) (valid : (s.buf i).valid ≡ true)
    (used : 0 < (s.buf i).refcnt) where
  abbrev last : Buf
  last = record (s.buf i) { bytes = v; refcnt = (s.buf i).refcnt - 1 }

  abbrev changed : Bcache
  changed = stored s i v

  changed-buf : changed.buf i ≡ record (s.buf i) { bytes = v }
  changed-buf = update_self s.buf i (record (s.buf i) { bytes = v })

  released : Releases i (bwrite i changed) (brelse i (bwrite i changed))
  unfolding bwrite
  released = brelse-Releases i (bwrite i changed) there (rw changed-buf used)

  released-disk : released.out.disk ≡ update s.disk blockno v
  unfolding bwrite
  released-disk =
      released.disk
      ∙ ap (λ (b : Buf). update s.disk b.blockno b.bytes) changed-buf
      ∙ ap (λ c. update s.disk c v) key.1

  released-Replaces : Replaces s released.out i last
  unfolding bwrite
  released-Replaces = record {
    there = there;
    here =
        ap (λ f. f i) released.bufs
        ∙ update_self changed.buf i (record (changed.buf i) { refcnt = (changed.buf i).refcnt - 1 })
        ∙ ap (λ (b : Buf). record b { refcnt = b.refcnt - 1 }) changed-buf;
    others = λ j ne.
        ap (λ f. f j) released.bufs
        ∙ update_ne changed.buf i j (record (changed.buf i) { refcnt = (changed.buf i).refcnt - 1 })
            (λ e. ne (sym e))
        ∙ update_ne s.buf i j (record (s.buf i) { bytes = v }) (λ e. ne (sym e));
    order = released.order;
    disk = λ c ne.
        ap (λ f. f c) released-disk ∙ update_ne s.disk blockno c v (λ e. ne (sym e ∙ sym key.1));
  }

  on_disk : v ≡ released.out.disk (s.buf i).blockno
  on_disk = sym (
      ap (λ f. f (s.buf i).blockno) released-disk
      ∙ ap (update s.disk blockno v) key.1
      ∙ update_self s.disk blockno v)

  released-IsCoherent : IsCoherent dev released.out
  released-IsCoherent =
      kept-IsCoherent dev s released.out i last ok there released-Replaces key.0 key.0 refl
        (λ e z. on_disk)

  released-contents :
      (c : ℕ) → contents dev c released.out ≡ update (λ x. contents dev x s) blockno v c
  released-contents c =
      kept-contents dev s released.out i last ok there released-Replaces key.0 key.0 refl
        (λ e z. on_disk) c
      ∙ rw (valid, key.1) refl

module _ (dev blockno : ℕ) (v : Contents) (s : Bcache) (ok : IsCoherent dev s) where
  -- `bread` of a block of the device, a change of the buffer to the bytes `v`, `bwrite` and
  -- `brelse`, where the cache is coherent and has a buffer that is not used: the cache stays
  -- coherent, and the blocks that it stands for and those of the disk change as the store does
  -- on which kernel/log.c is modelled, which has a buffer for each block.
  pub write_through-view :
      (pins : ℕ → ℕ) (free : ℕ)
      → IsIn free s
      → (s.buf free).refcnt ≡ 0
      → (t : Bcache) × (write_through dev blockno v s ≡ some t)
        × IsCoherent dev t
        × (view dev pins t ≡ Store.bwrite blockno (copy_to blockno v (view dev pins s)))
  unfolding write_through
  write_through-view pins free in_list unused =
      let r = bread-Reads dev blockno s ok free in_list unused in
      let w = released dev blockno r.index v r.out r.coherent r.there r.key r.valid r.used in
      (
        w.out,
        rw r.returns w.returns,
        released-IsCoherent dev blockno r.index v r.out r.coherent r.there r.key r.valid r.used,
        ap₂ (λ f d. record { buffer = f; disk = d; pins = pins })
            (fun_ext (λ c.
              released-contents dev blockno r.index v r.out r.coherent r.there r.key r.valid r.used
                c
              ∙ ap (λ f. update f blockno v c) (fun_ext r.same)))
            (released-disk dev blockno r.index v r.out r.coherent r.there r.key r.valid r.used
              ∙ ap (λ d. update d blockno v) r.disk
              ∙ ap (update s.disk blockno) (sym (update_self (λ c. contents dev c s) blockno v))),
      )
