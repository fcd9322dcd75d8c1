-- ===== src/Memory/Tests.antt =====
-- Two overlapping moves.
use raid_system.Memory.{Bytes, memmove}
use raid_system.Memory.Move.{Moves, memmove-Moves}

abbrev numbered : Bytes
numbered a = a

memmove-Moves_example : Moves 12 10 5 numbered (memmove 12 10 5 numbered)
memmove-Moves_example = memmove-Moves 12 10 5 numbered
