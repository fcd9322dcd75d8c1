-- ===== src/Fs.antt =====
-- kernel/fs.c over the log of kernel/log.c: the file system's blocks are the buffers of the log.
pub mod Words
pub mod Alloc
pub mod Inode
pub mod Content
pub mod Table
pub mod Path
mod Tests
use raid_system.Prelude.{ℕ, ◌+◌, ◌*◌, ◌/◌, Option, some}
use raid_system.Log.{Log, log_write}
use raid_system.Log.Store.{Contents, bread, copy_to}

abbrev pub bsize : ℕ
bsize = 1024

-- struct superblock, but for the places of the log.
pub record Superblock : Type 0 where
  pub magic : ℕ
  pub size : ℕ
  pub nblocks : ℕ
  pub ninodes : ℕ
  pub nlog : ℕ
  pub inodestart : ℕ
  pub bmapstart : ℕ

abbrev pub ndirect : ℕ
ndirect = 12

abbrev pub nindirect : ℕ
nindirect = 256

abbrev pub maxfile : ℕ
maxfile = ndirect + nindirect

-- Inodes in a block, of 64 bytes each.
abbrev pub ipb : ℕ
ipb = 16

-- Bits in a block of the bitmap.
abbrev pub bpb : ℕ
bpb = bsize * 8

-- IBLOCK(i, sb)
abbrev pub iblock : Superblock → ℕ → ℕ
iblock sb i = i / ipb + sb.inodestart

-- BBLOCK(b, sb)
abbrev pub bblock : Superblock → ℕ → ℕ
bblock sb b = b / bpb + sb.bmapstart

-- The data of a buffer, as `bread` returns it.
abbrev pub block_of : ℕ → Log → Contents
block_of blockno s = bread blockno s.buffers

-- A change to the data of a buffer and the call of `log_write`.
unfoldable pub write_logged : ℕ → Contents → Log → Option Log
write_logged blockno v s = log_write blockno (record s { buffers = copy_to blockno v s.buffers })
