-- ===== src/Log/Room.antt =====
-- `log_write` of kernel/log.c succeeds as long as the log has room.
use raid_system.Prelude.{
  ℕ, suc, ◌+◌, ◌-◌, ◌≤◌, ◌<◌, ◌≡◌, refl, ◌∙◌, arith, Option, some, List, length, set, get_elem?,
  length-set, ◌==◌, if◌then◌else◌, lt→leb_false, le→ltb, get_elem?-eq-get_or, inl, inr, Bool-cases,
  ◌>>◌,
}
use raid_system.Log.{Log, logsize, find_logged, log_write}
use raid_system.Log.Store.{bpin}
use raid_system.Log.Find.{Finds, find_logged-Finds}

-- In a transaction, with room for `r` more blocks in the log.
pub record HasRoom (s : Log) (r : ℕ) : Type 0 where
  pub size_block : length s.lh.block ≡ logsize
  pub space : s.lh.n + r ≤ logsize
  pub log_space : s.lh.n + r ≤ s.size - 1
  pub running : 0 < s.outstanding

-- The call succeeds, needs room for one block at most, and changes the contents of no buffer.
pub record Logs (s : Log) (r : ℕ) (result : Option Log) : Type 0 where
  pub out : Log
  pub returns : result ≡ some out
  pub room : HasRoom out r
  pub same : out.buffers.buffer ≡ s.buffers.buffer

module _ (s : Log) (blockno r : ℕ) (has : HasRoom s (suc r)) where
  found : Finds blockno s.lh.block 0 s.lh.n (find_logged blockno s.lh.block s.lh.n 0)
  found = find_logged-Finds blockno s.lh.block 0 s.lh.n (omega (arith, has.size_block, has.space))

  index-bound : found.index ≤ s.lh.n
  index-bound = elim found.place [ inl (h, e) ↦ omega arith | inr e ↦ omega (arith, e) ]

  abbrev block' : List ℕ
  block' = set s.lh.block found.index blockno

  abbrev added : Log
  added = record s {
    lh = record { n = suc s.lh.n; block = block' };
    buffers = bpin blockno s.buffers;
  }

  abbrev absorbed : Log
  absorbed = record s { lh = record { n = s.lh.n; block = block' } }

  block-size : length block' ≡ logsize
  block-size = length-set s.lh.block found.index blockno ∙ has.size_block

  log_write-ends :
      log_write blockno s ≡ (if found.index == s.lh.n then some added else some absorbed)
  unfolding log_write
  log_write-ends =
      let step : log_write blockno s ≡ (do
        get_elem? s.lh.block found.index
        if found.index == s.lh.n then some added else some absorbed) =
        rw
          (
            lt→leb_false logsize s.lh.n (omega (arith, has.space)),
            lt→leb_false (s.size - 1) s.lh.n (omega (arith, has.log_space)),
            le→ltb s.outstanding 1 has.running,
            found.returns,
          )
          refl in
      step
      ∙ rw
          (get_elem?-eq-get_or s.lh.block found.index 0
            (omega (arith, index-bound, has.size_block, has.space)))
          refl

  pub log_write-Logs : Logs s r (log_write blockno s)
  log_write-Logs = elim (Bool-cases (found.index == s.lh.n)) [
    | inl e ↦ record {
      out = added;
      returns = log_write-ends ∙ rw e refl;
      room = record {
        size_block = block-size;
        space = omega (arith, has.space);
        log_space = omega (arith, has.log_space);
        running = has.running;
      };
      same = refl;
    }
    | inr e ↦ record {
      out = absorbed;
      returns = log_write-ends ∙ rw e refl;
      room = record {
        size_block = block-size;
        space = omega (arith, has.space);
        log_space = omega (arith, has.log_space);
        running = has.running;
      };
      same = refl;
    }
  ]
