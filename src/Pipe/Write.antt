-- ===== src/Pipe/Write.antt =====
-- `pipewrite` and `piperead` of kernel/pipe.c on the bytes in the pipe.
use raid_system.Prelude.{
  ℕ, zero, suc, ◌+◌, ◌%◌, ◌≤◌, ◌<◌, ◌≡◌, ◌≢◌, refl, sym, ◌∙◌, ap, arith, true, false, List, [], ◌∷◌,
  ◌++◌, length, ◌==◌, Option, some, map, ◌⊎◌, inl, inr, ==_eq, ==_ne, not, ◌||◌,
}
use mathlib.Core.List.{append_assoc, append-nil}
use raid_system.Pipe.{
  Pipe, Outcome, returned, put_byte, next_byte, drop_byte, is_full, write_bytes, pipewrite,
  read_bytes, piperead,
}
use raid_system.Pipe.Queue.{IsPipe, contents, put_byte-contents, drop_byte-contents}

-- The call returns the number of all bytes, which are at the end of the queue.
record Appends (i : ℕ) (bs : List ℕ) (p : Pipe) (size : ℕ) (result : Outcome × Pipe) : Type 0 where
  out : Pipe
  returns : result ≡ (returned (i + length bs), out)
  ok : IsPipe out (size + length bs)
  queue : contents out (size + length bs) ≡ contents p size ++ bs

is_full-false : (p : Pipe) (size : ℕ) → IsPipe p size → size < 512 → is_full p ≡ false
is_full-false p size ok h =
    ==_ne p.nwrite ((p.nread + 512) % 4294967296) (λ e. absurd (omega (arith, ok.write, ok.read)))

write_bytes-suc :
    (i : ℕ) (b : ℕ) (bs : List (Option ℕ)) (p : Pipe)
    → p.readopen ≡ true
    → is_full p ≡ false
    → write_bytes false i (some b ∷ bs) p ≡ write_bytes false (suc i) bs (put_byte b p)
unfolding write_bytes
write_bytes-suc i b bs p opened room =
    let runs : (not p.readopen || false) ≡ false = rw opened refl in rw (runs, room, write_bytes)

write_bytes-Appends :
    (i : ℕ) (bs : List ℕ) (p : Pipe) (size : ℕ)
    → IsPipe p size
    → p.readopen ≡ true
    → size + length bs ≤ 512
    → Appends i bs p size (write_bytes false i (map some bs) p)
unfolding write_bytes
write_bytes-Appends i [] p size ok opened room =
    let e : size + 0 ≡ size = omega arith in
    let e' : i + 0 ≡ i = omega arith in
    record {
      out = p;
      returns = rw e' refl;
      ok = rw e ok;
      queue = rw e (sym (append-nil (contents p size)));
    }
write_bytes-Appends i (b ∷ bs) p size ok opened room =
    let step = put_byte-contents p size ok b (omega arith) in
    let r = write_bytes-Appends (suc i) bs (put_byte b p) (suc size) step.0 opened (omega arith) in
    let e : size + suc (length bs) ≡ suc size + length bs = omega arith in
    let e' : i + suc (length bs) ≡ suc i + length bs = omega arith in
    record {
      out = r.out;
      returns =
          write_bytes-suc i b (map some bs) p opened (is_full-false p size ok (omega arith))
          ∙ rw e' r.returns;
      ok = rw e r.ok;
      queue =
          rw e (r.queue ∙ ap (λ xs. xs ++ bs) step.1 ∙ append_assoc (contents p size) (b ∷ []) bs);
    }

-- The bytes that come out are the first of the queue: `n` of them, or all.
record Takes (i n : ℕ) (p : Pipe) (size : ℕ) (result : List ℕ × ℕ × Pipe) : Type 0 where
  out : List ℕ
  left : ℕ
  rest : Pipe
  returns : result ≡ (out, i + length out, rest)
  ok : IsPipe rest left
  queue : contents p size ≡ out ++ contents rest left
  amount : ((length out ≡ n) ⊎ (left ≡ 0)) × (length out ≤ n)

read_bytes-suc :
    (i n : ℕ) (p : Pipe)
    → (p.nread == p.nwrite) ≡ false
    → read_bytes (λ k. true) (suc n) i p ≡ (
        let rest = read_bytes (λ k. true) n (suc i) (drop_byte p) in
        (next_byte p ∷ rest.0, rest.1, rest.2))
unfolding read_bytes
read_bytes-suc i n p e = rw (e, read_bytes)

read_bytes-zero :
    (i n : ℕ) (p : Pipe)
    → (p.nread == p.nwrite) ≡ true
    → read_bytes (λ k. true) (suc n) i p ≡ ([], i, p)
unfolding read_bytes
read_bytes-zero i n p e = rw (e, read_bytes)

read_bytes-Takes :
    (i n : ℕ) (p : Pipe) (size : ℕ)
    → IsPipe p size
    → Takes i n p size (read_bytes (λ k. true) n i p)
unfolding read_bytes
read_bytes-Takes i zero p size ok =
    let e : i + 0 ≡ i = omega arith in
    record {
      out = [];
      left = size;
      rest = p;
      returns = rw e refl;
      ok = ok;
      queue = refl;
      amount = (inl refl, omega arith);
    }
read_bytes-Takes i (suc n) p zero ok =
    let e : i + 0 ≡ i = omega arith in
    record {
      out = [];
      left = 0;
      rest = p;
      returns =
          read_bytes-zero i n p (==_eq p.nread p.nwrite (omega (arith, ok.write, ok.read)))
          ∙ rw e refl;
      ok = ok;
      queue = refl;
      amount = (inr refl, omega arith);
    }
read_bytes-Takes i (suc n) p (suc size) ok =
    let step = drop_byte-contents p (suc size) ok size refl in
    let r = read_bytes-Takes (suc i) n (drop_byte p) size step.0 in
    let differ : p.nread ≢ p.nwrite = λ e. absurd (omega (arith, ok.write, ok.read, ok.fits)) in
    let e : i + suc (length r.out) ≡ suc i + length r.out = omega arith in
    record {
      out = next_byte p ∷ r.out;
      left = r.left;
      rest = r.rest;
      returns = read_bytes-suc i n p (==_ne p.nread p.nwrite differ) ∙ rw (r.returns, e) refl;
      ok = r.ok;
      queue = step.1 ∙ ap (λ xs. next_byte p ∷ xs) r.queue;
      amount =
          (elim r.amount.0 [ inl h ↦ inl (ap suc h) | inr h ↦ inr h ], omega (arith, r.amount.1));
    }

-- `pipewrite` of bytes for which a pipe has room, to a pipe whose reading end is open, returns
-- their number; a `piperead` of `n` bytes, where there is a byte in the pipe by then, then returns
-- the first bytes of the queue, those that were in the pipe before the new ones: never more than
-- `n`, and fewer only where that empties the pipe. `copyin` and `copyout` do not fail, and the
-- process is not killed.
pub piperead-pipewrite :
    (p : Pipe) (size n : ℕ) (bs : List ℕ)
    → IsPipe p size
    → p.readopen ≡ true
    → 0 < size + length bs
    → size + length bs ≤ 512
    → (p' : Pipe) × (out : List ℕ) × (rest : Pipe) × (left : ℕ) × (pipewrite false (map some bs) p
        ≡ (returned (length bs), p'))
      × (piperead false (λ k. true) n p' ≡ (returned (length out), out, rest))
      × IsPipe rest left
      × (contents p size ++ bs ≡ out ++ contents rest left)
      × ((length out ≡ n) ⊎ (left ≡ 0))
      × (length out ≤ n)
unfolding pipewrite piperead
piperead-pipewrite p size n bs ok opened some_bytes room =
    let w = write_bytes-Appends 0 bs p size ok opened room in
    let r = read_bytes-Takes 0 n w.out (size + length bs) w.ok in
    let differ : w.out.nread ≢ w.out.nwrite =
      λ e. absurd (omega (arith, w.ok.write, w.ok.read, w.ok.fits)) in
    let zero_left : (k : ℕ) → 0 + k ≡ k = λ k. omega arith in
    (
      w.out,
      r.out,
      r.rest,
      r.left,
      w.returns ∙ rw (zero_left (length bs)) refl,
      rw (==_ne w.out.nread w.out.nwrite differ, r.returns, zero_left (length r.out)) refl,
      r.ok,
      sym w.queue ∙ r.queue,
      r.amount.0,
      r.amount.1,
    )
