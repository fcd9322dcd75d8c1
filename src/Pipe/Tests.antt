-- ===== src/Pipe/Tests.antt =====
-- A pipe with two bytes in it whose counts are about to wrap.
use raid_system.Prelude.{
  ℕ, ◌≡◌, ◌≤◌, refl, arith, true, false, List, [], ◌∷◌, ◌++◌, replicate, length, map, some, ◌⊎◌,
}
use raid_system.Pipe.{Pipe, returned, pipewrite, piperead}
use raid_system.Pipe.Queue.{IsPipe, contents}
use raid_system.Pipe.Write.{piperead-pipewrite}

abbrev wrapping : Pipe
wrapping = record {
  data_bytes = replicate 512 7;
  nread = 4294967295;
  nwrite = 1;
  readopen = true;
  writeopen = true;
}

wrapping-IsPipe : IsPipe wrapping 2
wrapping-IsPipe = record { bytes = refl; read = omega arith; write = refl; fits = omega arith }

piperead-pipewrite_example :
    (p' : Pipe) × (out : List ℕ) × (rest : Pipe) × (left : ℕ) × (pipewrite false
        (map some (8 ∷ 9 ∷ []))
        wrapping
      ≡ (returned 2, p'))
    × (piperead false (λ k. true) 3 p' ≡ (returned (length out), out, rest))
    × IsPipe rest left
    × (contents wrapping 2 ++ (8 ∷ 9 ∷ []) ≡ out ++ contents rest left)
    × ((length out ≡ 3) ⊎ (left ≡ 0))
    × (length out ≤ 3)
piperead-pipewrite_example =
    piperead-pipewrite wrapping 2 3 (8 ∷ 9 ∷ []) wrapping-IsPipe refl (omega arith) (omega arith)
