-- ===== src/Lib.antt =====
-- A model of the xv6 kernel of this repository, with proofs. xv6 is a small Unix for RISC-V. Its
-- parts here are, from the bottom up: spinlocks (kernel/spinlock.c), over which everything else
-- runs; the allocator of physical pages (kernel/kalloc.c) and the page tables (kernel/vm.c); the
-- routines on bytes and strings (kernel/string.c), which the file system, exec and the system
-- calls use; the process table with sleep and wakeup (kernel/proc.c) and the sleep locks over it
-- (kernel/sleeplock.c); the buffer cache (kernel/bio.c) over the driver of the disk
-- (kernel/virtio_disk.c); the log (kernel/log.c), through which every write of the file system to
-- the disk goes; the file system (kernel/fs.c); the table of open files (kernel/file.c); pipes
-- (kernel/pipe.c); the console (kernel/console.c) and printf over it (kernel/printf.c); and, on
-- top, the system calls (kernel/syscall.c, kernel/sysproc.c, kernel/sysfile.c). Of the user
-- programs the library (user/ulib.c, user/printf.c), the matcher of grep (user/grep.c) and the
-- tokens of the shell (user/sh.c) are here.
--
-- Base and its children: the names the other modules share, Boolean tests, lists, and the C `int`
--   with its sign.
-- Kern: what a kernel routine does: return, go to sleep in sleep(), or panic().
-- Spinlock (kernel/spinlock.c, `struct cpu` of kernel/proc.h): push_off, pop_off, initlock and
--   holding as functions. Spinlock.Nesting is about nested calls of push_off and pop_off.
--   Spinlock.Exclusion has acquire and release as a step relation: one step of one CPU is a line
--   of the code, the swap and the release are atomic, and so are the two reads of holding().
-- Sleeplock (kernel/sleeplock.c): a call is one section that returns or goes to sleep.
--   Sleeplock.Exclusion has processes that take and give back one lock as a step relation.
-- Kalloc (kernel/kalloc.c): memory is one of 64-bit words by their byte addresses; memset of a page
--   is written by words. `end` is an argument, since the linker gives it. Kalloc.Chain is about
--   kfree and kalloc, Kalloc.Init about kinit.
-- Vm (kernel/vm.c, kernel/riscv.h): page tables in the memory of Kalloc. copyout writes bytes into
--   its words, and copyin reads them into a buffer of the kernel, which is a function from indices
--   to bytes and lies apart from the page tables and the process's pages. Vm.Tables is about walk
--   without alloc, Vm.Pages and Vm.Growth about walk with alloc, Vm.Copy about copyin and copyout.
-- Bytes (kernel/string.c): memory is a function from addresses to bytes. Bytes.Move is about
--   memset, memmove and memcmp, Bytes.Strings about the routines on strings.
-- Store (kernel/bio.c as its clients see it): the disk, the cached contents and the reference
--   counts, with the history of the disks that a crash can leave. A block is written at once or not
--   at all. The list of buffers of kernel/bio.c and its choice of a victim are in Bio.
-- Bio (kernel/bio.c, kernel/buf.h): the buffers with the links between them, and the device as the
--   blocks that virtio_disk_rw moves. Bio.Segment and Bio.Ring are about the list, Bio.Scan,
--   Bio.Cache and Bio.Read about bget and bread, Bio.Release about brelse. refcnt++ does not wrap,
--   since no 2 ^ 32 references are held.
-- Virtio (kernel/virtio_disk.c, kernel/virtio.h): the descriptors, virtio_disk_rw in its part up to
--   the notice to the device and the part when the request is done, and virtio_disk_intr.
--   Virtio.Alloc is about alloc3_desc, Virtio.Chain about the descriptors of a request.
-- Log (kernel/log.c): `struct log` over a Store. A routine is the section that it runs under the
--   lock, and end_op is its two sections, with the commit between them. The children are by proof:
--   Copy, Head and Recover build up to Crash, on commit and recovery under crashes; Space is about
--   begin_op's reservations, Absorb about log_write.
-- Fs (kernel/fs.c, kernel/fs.h, `struct inode` of kernel/file.h): a block is its bytes, bread gives
--   the current ones, and log_write is recorded. Fs.Bitmap has balloc and bfree (with Fs.Bits,
--   Fs.Bitmap.Alloc and Fs.Bitmap.Balloc), Fs.Itable the table of inodes and their copies on disk
--   (with Fs.Words, Fs.Dinode and Fs.Table), Fs.Content bmap, itrunc, readi and writei (with
--   Fs.Mapping), Fs.Path skipelem, and Fs.Dir iput, the directories and namex. Fs.Fuel is about
--   the rounds that its loops may take.
-- Pipe (kernel/pipe.c): pipewrite, piperead and pipeclose, in sections from taking the lock until
--   the call returns or sleeps. Pipe.Ring is about the ring buffer, Pipe.Sections about one
--   section, Pipe.Fifo about interleavings of sections.
-- Console (kernel/console.c): the input buffer, consputc and consoleintr, and consoleread in
--   sections as for pipes. Console.Text and Console.Typing are about the texts in the buffer,
--   Console.Editor about consoleintr as a line editor, Console.Reading about consoleread.
-- Proc (kernel/proc.c, kernel/proc.h): the table of NPROC processes and what allocproc, freeproc,
--   fork, exit, wait, reparent, kill, setkilled, killed and wakeup do to it. A pid and nextpid are
--   the 32 bits of an int. Proc.Pids, Proc.Family, Proc.Reaping and Proc.Signals are about them.
--   Proc.Sleep has sleep() and a waker as a step relation on the two locks of the protocol.
--   Proc.Scheduler has the scans of scheduler() on one CPU, with what happens between a switch to a
--   process and the way back as an argument.
-- Grep (user/grep.c): match, matchhere and matchstar on strings as lists of characters, where
--   matchstar takes the match of the rest of the expression as a function. Grep.Pattern says what
--   an expression matches.
-- Ftable (kernel/file.c): the table of open files over Pipe and Fs; begin_op and end_op are
--   arguments. Ftable.Io has filewrite, where pipewrite and the functions of the devices are
--   arguments, and the branch of fileread for inodes. Ftable.Counts is about the counts of
--   references, Ftable.Returns, Ftable.Advance and Ftable.Offsets about the offset across
--   filewrite.
-- Printf (kernel/printf.c): printint, printptr and printf as the characters that go to consputc().
--   Printf.Numerals is about printint and printptr.
-- Ulib (user/ulib.c, user/printf.c): the routines on strings, atoi, gets, memmove and vprintf.
--   Ulib.Numbers is about atoi, Ulib.Texts about vprintf and memmove beside the kernel's routines.
-- Sysfile (kernel/sysfile.c): the running process's descriptors and directory over Ftable, with
--   argfd, fdalloc, dup and close; Sysfile.Calls has link and unlink, Sysfile.Open create, open,
--   mkdir, mknod and chdir, and Sysfile.Pipes pipe with pipealloc of kernel/pipe.c. begin_op and
--   end_op are arguments here too. Sysfile.Steps, Sysfile.Transactions, Sysfile.Closing and
--   Sysfile.Openings are about the operations that the calls begin and end, Sysfile.Descriptors,
--   Sysfile.Dropping, Sysfile.Sharing, Sysfile.PipeAlloc and Sysfile.Piping about descriptors and
--   the counts of references.
-- Syscall (kernel/syscall.c, kernel/sysproc.c): the arrays of calls and of their names, syscall()
--   with the line that it prints for a traced call, fetchaddr, and the calls getpid, uptime, trace
--   and sleep; the other calls are an argument. Syscall.Trace is about syscall() and fetchaddr().
-- Shell (user/sh.c): gettoken and peek on a line as a list of characters. Shell.Tokens is about
--   gettoken.
-- Tests: the models at concrete inputs.
--
-- Loops are counted: a loop that the source bounds by an index runs on the rounds that are left,
-- and the scans of the process table run over the table. Control-U on the console runs in at most
-- as many rounds as characters are typed. readi, writei, filewrite, copyin and copyout run in at
-- most as many rounds as bytes are asked for, and namex in one more than its path has characters.
-- printint has 32 rounds for its digits, since a 32-bit number has no more in any base from 2 on.
-- free_chain has one round more than there are descriptors: each round frees another one, and one
-- that is free already is a panic. strlen runs on fuel, and its theorem asks for more fuel than
-- the string is long. A `uint` that can wrap (the indices of a pipe and of the console) is
-- reduced modulo 2 ^ 32; where a decrement of a counter wraps, it is written out.
--
-- Locks: a section that runs under a lock is one step of a model. The orders of steps are
-- explicit in Pipe.Fifo, Proc.Sleep, Spinlock.Exclusion and Sleeplock.Exclusion. One disk is
-- modelled. Page tables and user memory enter a model by what it asks of them: whether copyin()
-- or copyout() of an address succeeds, and whether an allocation does.
--
-- Not modelled: readsb, fsinit and stati of kernel/fs.c, fileread on pipes and devices and
-- filestat of kernel/file.c, the kernel's own page table with uvmfirst, freewalk,
-- uvmfree and copyinstr of kernel/vm.c, sched, yield, growproc, userinit and procdump of
-- kernel/proc.c, read, write, fstat and exec of kernel/sysfile.c, fetchstr and argstr of
-- kernel/syscall.c, exit, fork, wait, sbrk and kill of kernel/sysproc.c, which call
-- kernel/proc.c, and kernel/exec.c; and, since they drive devices or the processor, the drivers
-- of the UART and the PLIC, virtio_disk_init, kernel/start.c, kernel/main.c, kernel/trap.c and
-- the assembly files. Of the user programs (user/) only the library without its allocator, grep's
-- matcher and the shell's tokens are modelled, and of mkfs/mkfs.c nothing.
pub mod Base
pub mod Kern
pub mod Spinlock
pub mod Sleeplock
pub mod Kalloc
pub mod Vm
pub mod Bytes
pub mod Store
pub mod Bio
pub mod Virtio
pub mod Log
pub mod Fs
pub mod Pipe
pub mod Console
pub mod Proc
pub mod Grep
pub mod Ftable
pub mod Printf
pub mod Ulib
pub mod Sysfile
pub mod Syscall
pub mod Shell
pub mod Tests
