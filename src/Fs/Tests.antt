-- ===== src/Fs/Tests.antt =====
-- A small file system: the bitmap in block 5, inodes from block 4 on, a file of one block.
mod Lookup
use raid_system.Prelude.{
  none, Option, pos, ℕ, ◌+◌, ◌≤◌, ◌<◌, ◌≡◌, refl, arith, true, false, some, List, ◌∷◌, replicate,
  ◌==◌, if◌then◌else◌, ◌&&◌,
}
use raid_system.Log.{LogHeader, Log}
use raid_system.Log.Store.{Contents, Buffers}
use raid_system.Log.Room.{HasRoom}
use raid_system.Memory.{Bytes}
use raid_system.Fs.{Superblock, bblock}
use raid_system.Fs.Alloc.{balloc}
use raid_system.Fs.Alloc.Laws.{free_at, Ends, balloc-Ends}
use raid_system.Fs.Inode.{Inode, iupdate, ilock}
use raid_system.Fs.Inode.Codec.{IsInode}
use raid_system.Fs.Inode.Stored.{with_fields, stored, ilock-iupdate}
use raid_system.Fs.Content.{Progress, readi, writei}
use raid_system.Fs.Content.Patch.{IsSeparate}
use raid_system.Fs.Content.Roundtrip.{IsOutside, byte_after, readi-writei}
use raid_system.Fs.Content.Mapped.{IsMapped}
use raid_system.Fs.Content.Read.{Reads, readi-Reads}

abbrev small : Superblock
small = record {
  magic = 270544960;
  size = 100;
  nblocks = 90;
  ninodes = 16;
  nlog = 31;
  inodestart = 4;
  bmapstart = 5;
}

-- The bits 8 to 15 of the bitmap are clear, and all others set.
abbrev bytes_of : ℕ → Contents
bytes_of b i = if b == 5 && i == 1 then 0 else 255

abbrev header : LogHeader
header = record { n = 0; block = replicate 30 0 }

abbrev buffers : Buffers
buffers = record { buffer = bytes_of; disk = bytes_of; pins = λ i. 0 }

abbrev started : Log
started = record {
  start = 40;
  size = 31;
  outstanding = 1;
  committing = false;
  lh = header;
  head = header;
  buffers = buffers;
}

started-HasRoom : (r : ℕ) → r ≤ 30 → HasRoom started r
started-HasRoom r h = record {
  size_block = refl;
  space = omega arith;
  log_space = omega arith;
  running = omega arith;
}

bitmap_used : (x : ℕ) → x < 100 → free_at small started (bblock small x) ≡ false
bitmap_used x h = let e : bblock small x ≡ 5 = omega arith in rw e refl

balloc-Ends_example :
    Ends small started 0 (started-HasRoom 2 (omega arith)) bitmap_used 0 (balloc small started)
balloc-Ends_example = balloc-Ends small started 0 (started-HasRoom 2 (omega arith)) bitmap_used

abbrev addrs : List ℕ
addrs = 9 ∷ replicate 12 0

abbrev file : Inode
file = record {
  dev = 1;
  inum = 3;
  ref = 1;
  valid = true;
  type = 2;
  major = 0;
  minor = 0;
  nlink = 1;
  size = 1000;
  addrs = addrs;
}

file-IsInode : IsInode file
file-IsInode = record {
  type = omega arith;
  major = omega arith;
  minor = omega arith;
  nlink = omega arith;
  size = omega arith;
  size_addrs = refl;
  addrs = omega arith;
}

abbrev cold_file : Inode
cold_file = record file { valid = false; size = 0 }

ilock-iupdate_example :
    (s' : Log) × (iupdate small file started ≡ some s')
    × ((kp : Inode)
        → stored small kp s'
          ≡ (if 3 == kp.inum then with_fields kp file else stored small kp started))
    × (ilock small cold_file s' ≡ some (record (with_fields cold_file file) { valid = true }))
ilock-iupdate_example =
    ilock-iupdate small file cold_file started 0 file-IsInode (λ e. absurd (omega arith))
      (started-HasRoom 1 (omega arith)) refl (omega arith) refl

file-IsMapped : IsMapped file started 1
file-IsMapped = record {
  size_addrs = refl;
  in_range = omega arith;
  direct = λ bn h h'. let e : bn ≡ 0 = omega arith in rw e (λ w. absurd (omega arith));
  root = λ h. absurd (omega arith);
  entries = λ bn h. absurd (omega arith);
}

abbrev empty_memory : Bytes
empty_memory i = 0

readi-Reads_example :
    Reads file started 900 5000 100 empty_memory 100
      (readi small (λ a m. none) file 5000 900 200 empty_memory started)
readi-Reads_example =
    readi-Reads small (λ a m. none) file started 1 100 file-IsMapped (λ a m. refl) 5000 900 200
      empty_memory refl (omega arith) (omega arith) (omega arith)

file-IsSeparate : IsSeparate file started 1
file-IsSeparate = record {
  mapped = file-IsMapped;
  distinct = λ bn bm h h' e. omega arith;
  apart = λ bn h. let e : bn ≡ 0 = omega arith in rw e (λ w. absurd (omega arith));
}

file-IsOutside : IsOutside small file started 1
file-IsOutside = record {
  content = λ bn h. let e : bn ≡ 0 = omega arith in rw e (λ w. absurd (omega arith));
  root = λ w. absurd (omega arith);
}

abbrev sevens : Bytes
sevens i = 7

readi-writei_example :
    (w : Progress) × (writei small (λ a m. none) file 0 960 50 sevens started ≡ some w)
    × (w.returned ≡ pos 50)
    × (out : Bytes) × (readi small (λ a m. none) w.inode 5000 990 20 empty_memory w.log
        ≡ some (record w { returned = pos 20; off = 1010; memory = out }))
    × ((i : ℕ)
        → i < 20
        → out (5000 + i)
          ≡ byte_after small
              (λ a m. none)
              file
              sevens
              1
              (λ a m. refl)
              started
              file-IsSeparate
              file-IsOutside
              960
              0
              50
              (990 + i))
readi-writei_example =
    readi-writei small (λ a m. none) file sevens 1 (λ a m. refl) started file-IsSeparate
      file-IsOutside 1 0 960 50 5000 990 20 empty_memory (started-HasRoom 2 (omega arith))
      (omega arith) (omega arith) (omega arith) (omega arith) (omega arith)
