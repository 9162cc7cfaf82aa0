-- ===== src/Lib.antt =====
-- A model of the operating system of this repository, a fork of xv6 for RISC-V, and the theorems
-- that make its parts correct.
--
-- The kernel's parts (kernel/) share two stores: the process table, which the scheduler, fork,
-- exit, wait, sleep, wakeup and kill change under their locks, and the disk behind the buffer
-- cache, which the file system changes through the log. User programs (user/) reach both by
-- system calls and share the library user/ulib.c.
--
-- Base holds what the modules share: Boolean tests, lists, families indexed by numbers, integers,
-- and the monad of code that may panic.
--
-- Kernel.Log models kernel/log.c. A disk block is a family of words; `Store` is the contract of
-- the buffer cache: `bread` returns what memory holds, `bwrite` writes memory and disk, and
-- `power` counts the disk writes that still succeed, so that a crash at any write is a value of
-- `power` and a restart is `reboot`. The children Crash and Restart are about recovery, Ops,
-- Append and Space about the reservation of log space by concurrent operations.
--
-- Kernel.Proc models kernel/proc.c and the calls of kernel/sysproc.c on the process table: Table
-- (`struct proc`, allocproc, freeproc), Wake (sleep, wakeup, kill), Life (userinit, fork, exit,
-- wait), Sched (the three policies of scheduler, and yield) and Syscalls. Each acts on the whole
-- table at once, although fork, exit, wakeup and the scan of scheduler take and drop locks in
-- between; how these interleave on several CPUs is not modelled. A sleep is cut at the call of
-- sched. Pointers to processes are table indices; open files, directories and page tables are
-- addresses; calls into other parts are logged in order. Memory and the clock are arguments.
--
-- Kernel.Pipe models kernel/pipe.c, with each piece of pipewrite and piperead between two sleeps
-- as one function; Kernel.Console models the input ring of kernel/console.c in the same way.
-- Kernel.Spinlock models kernel/spinlock.c, Kernel.Bio the list of buffers of kernel/bio.c,
-- Kernel.Kalloc the free pages of kernel/kalloc.c. Kernel.Cstring models kernel/string.c,
-- Kernel.Datetime kernel/datetime.c.
--
-- Kernel.Fs models kernel/fs.c above the log: Bitmap (balloc, bfree), Bmap (bmap), Io (readi,
-- writei, iupdate), Trunc (itrunc), Itable (iget, idup, iput), Dir (dirlookup, dirlink) and Paths
-- (skipelem, namex). The disk is a family of blocks of bytes as a transaction sees it, which is
-- what the buffer cache and the log promise together. The copies of kernel/vm.c to and from a
-- process are the record `UserCopy`, with `CopyLaws`; the inodes and directories that namex walks
-- are the record `Tree`. Kernel.File models the reference counts of kernel/file.c.
--
-- User.Ulib and User.Flags model user/ulib.c: strings, numbers, paths, and the two option parsers.
-- User.Grep models user/grep.c: the matcher, and the reading of lines into a buffer of fixed size.
-- User.Printf models printint of user/printf.c, whose loop has a round for each byte of its buffer.
--
-- Bounded loops are recursion on the number of rounds left. Fuel is used where the source has no
-- counter: the loop over the years in Kernel.Datetime (the number of days and one), freerange in
-- Kernel.Kalloc (the number of pages and one), which their theorems show to be enough, and the
-- loop that kills a line in Kernel.Console (the bytes that are edited). In Kernel.Fs the loops of
-- readi and writei have a round for each byte, and a round moves at least one; that of balloc has
-- one for each map block and one more, those over a directory one for each of its bytes, which
-- hold an entry in 16, and namex one for each byte of the path and one. The scan of User.Grep has
-- one for each byte of the buffer and one, and takes at least a newline in each.
-- `int` overflow of pids, which C leaves undefined, is left out; unsigned
-- integers wrap around.
--
-- Not modelled: assembly, boot, traps, device drivers, format strings, page tables, ialloc and
-- ilock, program loading, and the user programs beside grep and the library.
pub mod Base
pub mod Kernel
pub mod User
