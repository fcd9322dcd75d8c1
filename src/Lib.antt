-- ===== src/Lib.antt =====
-- The RAID of this kernel, its file system with the log and the buffer cache below, its
-- processes, its pipes, its memory functions and its spin locks. The RAID is an array of virtio
-- disks that user programs set up, read, write, break and repair through system calls, as RAID 0,
-- 1, 0+1, 4 or 5.
--
-- The parts and how they interact: a system call (kernel/sysraid.c) takes its arguments and
-- calls a function of kernel/raid.c, which finds the metadata of the set, `struct raid`, in
-- memory or, by `fetch`, in block 0 of a disk. Reads and writes of blocks go through a table by
-- type to a function of kernel/raid_rw.c, which moves blocks by `read_block` and `write_block`
-- of kernel/virtio_disk.c. RAID 4 and 5 keep one stripe in a cache behind `struct raid`.
--
-- The file system is apart from the RAID, on disk 0: kernel/fs.c changes buffers of kernel/bio.c
-- and enters them into the log of kernel/log.c, which writes them to the disk when the last call
-- ends. Processes take turns on the processors, and wait for each other by `sleep` and `wakeup`.
--
-- The files:
--   Prelude: shared names, tests on numbers, lists by index, the integers of the calls, and
--     laws of the exclusive or.
--   Raid/State: kernel/raid.h, and the sizes of kernel/fs.h and the Makefile.
--   Raid/Device: `read_block` and `write_block`, and the accesses to the cached blocks.
--   Raid/Striped: `read_raid0` and `write_raid0`.
--   Raid/Mirror: `read_raid1`, `write_raid1`, `read_raid01`, `write_raid01`. Volume has the
--     blocks of the mirrored volume, Failure the places of the disks, Survives and Raid1 what
--     a failure leaves.
--   Raid/Parity: `cache`, `raid_tocache_recovery`, `raid_write_updateparity_cache`, `read_raid4`
--     and `write_raid4`. Sum has the parity of a stripe, Cache, Load and Recover the cached
--     blocks, Volume the invariant, Read, Update, Put, Write and Raid4 the calls, Failure the
--     loss of a disk.
--   Raid/Rotating: `read_raid5` and `write_raid5`, and the layout of RAID 5.
--   Raid/System: `fetch` and `writeback`: the metadata in memory and on the disks.
--   Raid/Places: the part of `disk_fail_raid` and `disk_repaired_raid` that changes which disk
--     serves what.
--   Raid/Control: `init_raid`, `info_raid`, `disk_fail_raid`, `disk_repaired_raid`,
--     `destroy_raid`.
--   Raid/Api: `read_raid` and `write_raid`. Raid/Syscall: kernel/sysraid.c.
--   Raid/Tests: concrete arrays, and the theorems at them.
--   Log: kernel/log.c. Store has the calls of kernel/bio.c that it uses, Install the loop of
--     `install_trans`, Copy those of `write_log` and of the header, Recover the recovery after a
--     crash, Commit the commit, Find and Space `log_write`, Tests a concrete log.
--     Room has `log_write` with room in the log.
--   Bcache: kernel/bio.c with the list of the buffers in order of use. Find has the searches of
--     `bget`, Coherent the blocks that the cache stands for, Read `bread`, Write `bwrite` and
--     `brelse`, Init `binit`, Tests the cache at the start.
--   Fs: the blocks of kernel/fs.c over the log. Words has the numbers in a block; Alloc `bzero`,
--     `balloc` and `bfree`; Inode `iupdate`, `ilock`, `bmap`, `itrunc` and `stati`, with the bytes
--     of an inode in Codec and Stored; Content `readi` and `writei`, with the files whose blocks
--     are allocated in Mapped, a copy in Chunk, `readi` in Read, `writei` in Patch, Write and
--     Written, and the two together in Roundtrip; Table `iget`, `idup` and `iput`; Path `skipelem`
--     with the loop of `namex` over it. Tests has a small file system.
--   Kalloc: kernel/kalloc.c. Free has `kfree` and `kalloc` on the list of free pages, Init `kinit`,
--     Tests a memory at the start.
--   Process: kernel/proc.c without its page tables and files. Wakeup has `wakeup` and `sleep`,
--     Family `exit` and `wait`, Killed `kill`, Keeps and Step the processes that take turns, Tests
--     a family of processes.
--   Memory: kernel/string.c without `strlen`, `strcat` and `itoa`. Move has `memmove`.
--   Spinlock: kernel/spinlock.c and the part of `struct cpu` that it uses.
--   Pipe: kernel/pipe.c without `pipealloc`. Queue has the bytes in a pipe as a list, Write the two
--     calls, Tests a concrete pipe.
--
-- The model: a block of the cache is a function from the byte number to the byte, and a block of
-- the device two of them, 1024 bytes. `none` is an access out of the bounds of an array, a
-- division by zero or a panic of the driver; the return values 0 and -1 are `success` and
-- `failure`. Unsigned values wrap at 32 bits. A disk number `diskn` starts at 1; where the
-- source uses `diskn - 1` throughout, the model passes that index. Loops are structural
-- recursion on the number of rounds, so there is no fuel but in the two places named below.
-- Number and size of the disks are the parameters of `Config`.
--
-- The page allocator keeps the links of its list in the bytes of the free pages; the end of the
-- kernel is a parameter. Where the RAID or the processes take a page, only their number counts.
--
-- The cache of blocks is modelled twice: for the log as a buffer for each block number, and in
-- Bcache as the buffers and the list of them, a pointer to a buffer being its index, with disk 0
-- behind it. The sleep lock of a buffer is held by the caller.
--
-- The log of the file system (kernel/log.c) stands on the buffers of kernel/bio.c, taken as what
-- the buffer and the disk hold for each block number and how often the buffer is pinned. A crash
-- is taken between two writes of a block; it leaves the disk as it is. The header of the log is
-- kept as a typed record beside the blocks, so that a transaction must not have the header's own
-- block in it, and a round of `begin_op` that sleeps returns false.
--
-- A file system's block is a buffer of the log; `none` is a panic. An inode is the entry of the
-- table in memory, and its lock is free. The numbers of an inode are natural numbers in memory and
-- take their number of bytes on the disk. The loops of `readi` and `writei` run on fuel, one round
-- for each byte and one more: a round copies a byte at least. Whether `either_copyin` and
-- `either_copyout` fail, and behind how many bytes, is an argument. A path is the list of its characters before the byte 0;
-- the loop over its elements runs on fuel, one round for each element and one more.
--
-- A process is its index in the table. Between two steps a process has no lock; a step is what a
-- process does under the locks it takes, or the choice of the scheduler. What `kalloc`, `uvmcopy`
-- and `copyout` give is an argument of the calls.
--
-- A lock is tested and set in one step, as the processor does it. The loop of `acquire` is taken
-- up to that step. The other components are modelled within the locks that they hold.
--
-- Memory is a function from addresses to bytes, and addresses do not wrap.
--
-- A call on a pipe runs up to its first sleep; what `copyin` and `copyout` give for each byte and
-- whether the process was killed are arguments.
--
-- Not modelled: the bytes of `struct raid` in block 0, which is kept as the typed record; the
-- walk from a user address to its page, for which the caller's buffer stands; the rings and
-- interrupts of the device; the steps of several processors in turn, but for the lock itself and
-- the processes; `pipealloc`; `strlen`, `strcat` and `itoa`; of the file system `ialloc`,
-- directories and the walk of `namex`; of a process its memory, open files and directory, with
-- `growproc` and `userinit`. The rest of the kernel and the user programs are not part of it.
pub mod Prelude
pub mod Raid
pub mod Bcache
pub mod Fs
pub mod Kalloc
pub mod Log
pub mod Memory
pub mod Pipe
pub mod Process
pub mod Spinlock
