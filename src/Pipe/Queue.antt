-- ===== src/Pipe/Queue.antt =====
-- The bytes in a pipe of kernel/pipe.c as a queue.
use raid_system.Prelude.{
  ℕ, zero, suc, ◌+◌, ◌%◌, ◌≤◌, ◌<◌, ◌≡◌, refl, sym, ◌∙◌, ap, ap₂, arith, List, [], ◌∷◌, ◌++◌,
  length, set, get_or, tabulate, length-set, get_or-set_self, get_or-set_ne,
}
use raid_system.Pipe.{Pipe, put_byte, next_byte, drop_byte}

-- A pipe with `size` bytes in it.
pub record IsPipe (p : Pipe) (size : ℕ) : Type 0 where
  pub bytes : length p.data_bytes ≡ 512
  pub read : p.nread < 4294967296
  pub write : p.nwrite ≡ (p.nread + size) % 4294967296
  pub fits : size ≤ 512

abbrev pub byte_at : List ℕ → ℕ → ℕ
byte_at bytes i = get_or bytes (i % 512) 0

-- The bytes in the pipe, the oldest first.
abbrev pub contents : Pipe → ℕ → List ℕ
contents p size = tabulate size p.nread (byte_at p.data_bytes)

tabulate-same :
    (n i j : ℕ) (f g : ℕ → ℕ)
    → ((k : ℕ) → k < n → f (i + k) ≡ g (j + k))
    → tabulate n i f ≡ tabulate n j g
tabulate-same zero i j f g h = refl
tabulate-same (suc n) i j f g h =
    let shift : (x k : ℕ) → x + suc k ≡ suc x + k = λ x k. omega arith in
    let zero_right : (x : ℕ) → x + 0 ≡ x = λ x. omega arith in
    ap₂ (λ x xs. x ∷ xs) (ap f (sym (zero_right i)) ∙ h 0 (omega arith) ∙ ap g (zero_right j))
      (tabulate-same n (suc i) (suc j) f g
        (λ k l. ap f (sym (shift i k)) ∙ h (suc k) (omega arith) ∙ ap g (shift j k)))

tabulate-snoc : (n i : ℕ) (f : ℕ → ℕ) → tabulate (suc n) i f ≡ tabulate n i f ++ (f (i + n) ∷ [])
tabulate-snoc zero i f = let e : i ≡ i + 0 = omega arith in ap (λ x. f x ∷ []) e
tabulate-snoc (suc n) i f =
    let e : suc i + n ≡ i + suc n = omega arith in
    ap (λ xs. f i ∷ xs) (tabulate-snoc n (suc i) f ∙ ap (λ x. tabulate n (suc i) f ++ (f x ∷ [])) e)

module _ (p : Pipe) (size : ℕ) (ok : IsPipe p size) where
  place : p.nwrite % 512 ≡ (p.nread + size) % 512
  place = omega (arith, ok.write)

  -- A byte that is written while there is room joins the queue at its end.
  pub put_byte-contents :
      (ch : ℕ)
      → size < 512
      → IsPipe (put_byte ch p) (suc size)
        × (contents (put_byte ch p) (suc size) ≡ contents p size ++ (ch ∷ []))
  put_byte-contents ch room =
      let data' = set p.data_bytes (p.nwrite % 512) ch in
      (
        record {
          bytes = length-set p.data_bytes (p.nwrite % 512) ch ∙ ok.bytes;
          read = ok.read;
          write = omega (arith, ok.write);
          fits = omega arith;
        },
        tabulate-snoc size p.nread (byte_at data')
            ∙ ap₂ (λ xs x. xs ++ (x ∷ []))
                (tabulate-same size p.nread p.nread (byte_at data') (byte_at p.data_bytes) (λ k l.
                  get_or-set_ne p.data_bytes (p.nwrite % 512) ((p.nread + k) % 512) ch 0
                    (omega (arith, place))))
                (ap (λ i. get_or data' i 0) (sym place)
                  ∙ get_or-set_self p.data_bytes (p.nwrite % 512) ch 0 (omega (arith, ok.bytes))),
      )

  -- The byte that is read next is the first of the queue.
  pub drop_byte-contents :
      (n : ℕ)
      → size ≡ suc n
      → IsPipe (drop_byte p) n × (contents p (suc n) ≡ next_byte p ∷ contents (drop_byte p) n)
  drop_byte-contents n e = (
    record {
      bytes = ok.bytes;
      read = omega arith;
      write = omega (arith, ok.write);
      fits = omega (arith, ok.fits);
    },
    ap (λ xs. next_byte p ∷ xs)
        (tabulate-same n (suc p.nread) (suc p.nread % 4294967296) (byte_at p.data_bytes)
          (byte_at p.data_bytes)
          (λ k l.
            let same : (suc p.nread + k) % 512 ≡ (suc p.nread % 4294967296 + k) % 512 =
              omega arith in
            ap (λ i. get_or p.data_bytes i 0) same)),
  )
