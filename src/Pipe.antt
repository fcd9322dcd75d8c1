-- ===== src/Pipe.antt =====
-- kernel/pipe.c: the bytes between the two ends of a pipe.
pub mod Queue
pub mod Write
mod Tests
use raid_system.Prelude.{
  ℕ, zero, suc, ◌+◌, ◌%◌, ◌^◌, Bool, true, false, not, ◌&&◌, ◌||◌, Option, none, some, List, [],
  ◌∷◌, ◌==◌, if◌then◌else◌, set, get_or,
}

abbrev pub pipesize : ℕ
pipesize = 512

-- struct pipe; `data` has `pipesize` elements, and the two counts wrap at 32 bits.
pub record Pipe : Type 0 where
  pub data_bytes : List ℕ
  pub nread : ℕ
  pub nwrite : ℕ
  pub readopen : Bool
  pub writeopen : Bool

-- pi->data[pi->nwrite++ % PIPESIZE] = ch
abbrev pub put_byte : ℕ → Pipe → Pipe
put_byte ch p = record p {
  data_bytes = set p.data_bytes (p.nwrite % pipesize) ch;
  nwrite = suc p.nwrite % 2 ^ 32;
}

-- pi->data[pi->nread % PIPESIZE]
abbrev pub next_byte : Pipe → ℕ
next_byte p = get_or p.data_bytes (p.nread % pipesize) 0

-- pi->nread++
abbrev pub drop_byte : Pipe → Pipe
drop_byte p = record p { nread = suc p.nread % 2 ^ 32 }

abbrev pub is_full : Pipe → Bool
is_full p = p.nwrite == (p.nread + pipesize) % 2 ^ 32

-- How a call ends or stops: it returns a number of bytes or -1, or it sleeps after that many.
pub data Outcome : Type 0 where
  returned : ℕ → Outcome
  failed : Outcome
  sleeps : ℕ → Outcome

-- The loop of `pipewrite` from byte `i` on, up to its first sleep. `copyin` gave the bytes; `none`
-- is its failure. A caller that wakes up goes on with the bytes that are left.
unfoldable pub write_bytes : Bool → ℕ → List (Option ℕ) → Pipe → Outcome × Pipe
write_bytes killed i [] p = (returned i, p)
write_bytes killed i (b ∷ bs) p = elim (not p.readopen || killed) [
  | true ↦ (failed, p)
  | false ↦ elim (is_full p) [
    | true ↦ (sleeps i, p)
    | false ↦ elim b [
      | none ↦ (returned i, p)
      | some ch ↦ write_bytes killed (suc i) bs (put_byte ch p)
    ]
  ]
]

unfoldable pub pipewrite : Bool → List (Option ℕ) → Pipe → Outcome × Pipe
unfolding write_bytes
pipewrite killed bytes p = write_bytes killed 0 bytes p

-- The loop of `piperead` that copies at most `n` bytes, with the bytes that were copied. Where
-- `copyout` fails the byte is gone.
unfoldable pub read_bytes : (ℕ → Bool) → ℕ → ℕ → Pipe → List ℕ × ℕ × Pipe
read_bytes copyout zero i p = ([], i, p)
read_bytes copyout (suc n) i p = elim (p.nread == p.nwrite) [
  | true ↦ ([], i, p)
  | false ↦ elim (copyout i) [
    | true ↦
        let rest = read_bytes copyout n (suc i) (drop_byte p) in
        (next_byte p ∷ rest.0, rest.1, rest.2)
    | false ↦ ([], i, drop_byte p)
  ]
]

-- With the bytes that were copied.
unfoldable pub piperead : Bool → (ℕ → Bool) → ℕ → Pipe → Outcome × List ℕ × Pipe
unfolding read_bytes
piperead killed copyout n p =
    if p.nread == p.nwrite && p.writeopen
    then (if killed then (failed, [], p) else (sleeps 0, [], p))
    else let r = read_bytes copyout n 0 p in (returned r.1, r.0, r.2)

-- True if the page of the pipe is freed.
unfoldable pub pipeclose : Bool → Pipe → Bool × Pipe
pipeclose writable p =
    let p' : Pipe =
      if writable then record p { writeopen = false } else record p { readopen = false } in
    (not p'.readopen && not p'.writeopen, p')
