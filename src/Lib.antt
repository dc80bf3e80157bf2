-- ===== src/Lib.antt =====
-- A verification library for the repository's C programs: the xv6 kernel with copy-on-write fork
-- (initial-xv6/src/kernel), its grep (initial-xv6/src/user), and the two programs under
-- concurrency/.
--
-- Base holds what the modules share: names of the libraries, Boolean tests, lists, functions
-- updated at one point and sums over them (Base/Update), sums in another order (Base/Pigeonhole),
-- and one law of the bitwise or (Base/Bits). Memory is physical memory as bytes with little-endian
-- 64-bit words; fill and copy are memset and memmove as the change that they make. Kernel is the
-- state of the memory code (bytes, head of the free list, reference counts) with the monad its
-- functions run in; panic() ends a run.
--
-- Kalloc models initial-xv6/src/kernel/kalloc.c, function by function under the C names, with the
-- free list linked through the first word of each free page. `kernel_end` is the linker's symbol
-- end, a parameter. Each function is run alone there, so that acquire() and release() leave no
-- trace; Kalloc/Race takes kfree() apart at its locks and lets harts interleave. A reference count
-- is an int held as its 32-bit pattern, with wrap-around.
--
-- Pte has the page-table entries of initial-xv6/src/kernel/riscv.h, Vm the page-table code of
-- initial-xv6/src/kernel/vm.c (walk, walkaddr, mappages, kvmmap, uvmunmap, uvmcreate, uvmalloc,
-- uvmdealloc, uvmclear, uvmfirst), and Cow its copy-on-write code (cowalloc, uvmcopy). C functions
-- that return 0 or -1 return success or failure; a null pointer is the address 0. Loops over pages
-- recur on the number of rounds left, computed from the bounds of the for loop, so that no fuel can
-- run out; it is the number of rounds of the C loop where its bounds do not wrap around 2 ^ 64.
-- Addresses are natural numbers; sums of addresses are not reduced modulo 2 ^ 64.
--
-- Lazy models concurrency/Lazy-Read-Write/finaltry.c: the files, what a request does to one, and
-- handle_request() as a step relation over any number of threads (Lazy/Threads). Time is a clock
-- that ticks between steps; sleep() and pthread_cond_timedwait() are given by their documented
-- behaviour: a sleep returns when its time has passed, or later; a timed wait may return early for
-- any reason, and with ETIMEDOUT only behind its deadline. A mutex makes a section one step.
--
-- Sorting models concurrency/Distributed-Sorting/finaltry.c: the comparison of entries, the merge
-- sort, insertion sort of short ranges included, the counting sort (Sorting/Counting), the sort
-- keys and sort_files() (Sorting/Files). strcmp() is a parameter, which Sorting/Order describes by
-- the sign of its result. An array is a function on the indices; what malloc() finds in a new array
-- is a parameter. The threads of one call work on disjoint chunks, so they are run in turn; the
-- depth decides only whether a chunk has a thread of its own. The threads of the counting sort add
-- to shared counters atomically and are run in turn too. strptime() and mktime() are one parameter.
-- The fuel bounds the depth of the calls; the length of the range is enough. Numbers of entries are
-- natural numbers.
--
-- Pipe models initial-xv6/src/kernel/pipe.c: the ring buffer with its wrapping counters, and what
-- pipewrite() and piperead() do with the lock held, up to the next sleep() or the return. copyin()
-- and copyout() of a byte are parameters.
--
-- Proc models initial-xv6/src/kernel/proc.c with clockintr() of trap.c: the process table and what
-- the functions do to it (Proc, Proc/Life for fork() and exit(), Proc/Wait for wait() and waitx()),
-- each cut where it releases its last lock, and the processes interleaved (Proc/System). A process
-- is its index in the table. Pages, page tables and the outcomes of copies are arguments; page
-- contents, the trapframe's registers, kernel stacks, contexts and the counts of directories are
-- left out. clockintr() is taken apart: it increments ticks, then updates one process after
-- another, then wakes up, and harts may run, make and end processes in between. ticks and nextpid
-- are 32-bit patterns with wrap-around; what holds only as long as they have not wrapped around has
-- a bound on the number of ticks or of IDs given out.
--
-- Grep models initial-xv6/src/user/grep.c: the matcher (match(), matchhere(), matchstar()) and the
-- loop of grep() over its reads into the buffer of 1024 bytes, with strchr() on the newline.
-- Strings are lists of bytes. A read gives some of the bytes it asks for, as a list of sizes has
-- it; as many reads as the file has bytes are enough. The fuel of the loop over the lines is the
-- number of bytes.
--
-- Log models initial-xv6/src/kernel/log.c: commit() and the recovery of initlog() as sequences of
-- bwrite(), of which only a given number reach the disk before the power fails; one write is
-- atomic. A block is its words. bread() gives the buffer, which is what the disk has after a crash;
-- the cache keeps the pinned blocks. Log/Space has begin_op(), end_op() and log_write(), one step
-- each, and what the operations under way may still write. mkfs.c makes a log of LOGSIZE = 30
-- blocks; here log.size is any number. The device is left out.
--
-- Strings has the loops of initial-xv6/src/kernel/string.c: memset(), memmove() and safestrcpy().
-- Memory's fill and copy stand for what the first two do.
--
-- Not modelled: locks, the file system, drivers, the system calls, the other user programs, the
-- boot code, and printing.
pub mod Base
pub mod Memory
pub mod Kernel
pub mod Kalloc
pub mod Pte
pub mod Vm
pub mod Cow
pub mod Lazy
pub mod Grep
pub mod Log
pub mod Strings
pub mod Sorting
pub mod Pipe
pub mod Proc
