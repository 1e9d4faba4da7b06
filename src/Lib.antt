-- ===== src/Lib.antt =====
-- The kernel of the risc operating system: its data structures, its scheduler and locks, its
-- signals, its page and object allocators, its processes, open files, block cache and file system.
--
-- The program is a small multi-core kernel for RISC-V. Its lower layer (lib/, include/lib/) has
-- bitmaps, intrusive lists and queues. Above it stand the page allocator (mm/), the scheduler and
-- the signals (kernel/proc/) and the sleeping locks (kernel/locks/), which queue threads in fifos
-- and put them to sleep and wake them through the scheduler. Processes (kernel/proc/proc.c) hold open
-- files (kernel/file.c), which read and write the inodes of a file system (fs/easyfs/); that cuts its
-- bytes into blocks and reaches the disk through a write-back cache (kernel/dev/blk/). Virtual memory,
-- traps and drivers stand beside these.
--
--   Common: Boolean tests, lists with native indices, and the integers of C as ℤ.
--   Bitmap (lib/bitmap.c): the struct is the record `Bitmap` over a list of 64-bit words, each the
--   list of its bits; the functions keep their names.
--   ListHead (include/lib/list.h): the nodes' links are two functions from addresses (`Heap`), so
--   that aliasing is modelled; `IsRing` says which sequence of nodes a list holds.
--   Fifo (include/lib/fifo.h): a queue over such a list; `Fifo.Queue` is the sequence it refines.
--   Sched (kernel/proc/sched.c, the sleeping of kernel/timer.c): `World` has the threads, the CPUs
--   with their run lists, and the counter that spreads threads over CPUs. A function is a whole call;
--   `Sched.Overlap` cuts the calls where `add_runnable_task` changes locks, and interleaves the parts.
--   Locks.SpinLock (kernel/locks/spinlock.c): the calls cut at each access that another CPU can see,
--   with the depth of `push_off` on each CPU.
--   Locks.Semaphore (kernel/locks/semaphore.c), Locks.Mutex (kernel/locks/mutex.c and its
--   sleeplock.c) and Locks.RwLock (kernel/locks/rwlock.c): what a call does under the lock's spin
--   lock is one function; the System and Exclusion modules interleave them as step relations.
--   Signal (kernel/proc/signal.c): `struct signal` is the record `Signal`; what `signal_handler`
--   runs after it has let go of its lock is the value `Action`.
--   Buddy (mm/mm.c, mm/page.c): a page is its index in `mem_map.pages`; `Memory` has the free
--   lists, the count of free pages and the reference count and order of each page. `Weight` sums
--   over the free blocks, so that one argument counts pages and tells which pages are free.
--   Slab (mm/slab.c, include/lib/stack.h): a slab is its address; `Cache` has its slabs, those of the
--   CPUs, and the lists of partial and full ones. The pages of a new slab are an argument, and so is
--   what the test of `kmem_cache_alloc` outside the lock has seen.
--   Hash (include/lib/hash.h, lib/hash.c): a table is the list of its buckets, each a list of nodes.
--   Lru (lib/lru.c): two lists of nodes, with the count of each node.
--   Files (kernel/file.c, include/fs/file.h): `Kernel` has the open files by address, a table of
--   descriptors is a list. What a file reads and writes is the interface `Inodes`, whose laws are
--   `Contents`; `Easyfs.Opened` has the inodes of easyfs as an instance of both.
--   Proc (kernel/proc/proc.c): `Procs` has the threads with their tree, tables of files and signals; the
--   pages of address spaces are the interface `Vm`, while the files that areas of memory hold
--   (kernel/vm/vma.c, kernel/vm/vm.c) are duplicated and closed as the code does. `do_exit` is modelled up to its last call of
--   the scheduler, and `do_waitpid` as one round of its loop.
--   Blk (kernel/dev/blk/): `Cache` has the disk, the buffers by block number and the list of dirty
--   blocks. A request is done in one step, and the flush is cut at the end of each write.
--   Easyfs (fs/easyfs/): `Efs` has the inodes by address, the counts, the two bitmaps and the `Cache`.
--
-- Bounds and fuel. The scan of a bitmap recurses on the words that are left. `list_len` recurses
-- on the million nodes after which the code gives up. `search_level` has one unit of fuel for
-- each level from the order on, `split` and `merge` one for each level they can pass, and
-- `add_chunks` the 32 chunks of 1024 pages that memory has; `calc_slab_order` has 7 for sizes of
-- 16 bits. The theorems hold with that fuel. The loops of `do_read`, `do_write`, `efs_i_read` and
-- `efs_i_write` have one round more than there are bytes, and `flush_all` takes any number above
-- that of the dirty blocks. Counters of 32 and 64 bits wrap as written, except the value of a
-- semaphore, an integer: 2^31 waiters or signals are not reached.
--
-- Not modelled: machine registers and the context switch, which change which thread runs and no
-- more; printing; the memory that holds the objects (allocation by `kmalloc` succeeds);
-- interrupts other than as steps; the caches that `mm_init` makes once the pages are free; the
-- queue of requests of a disk, whose thread takes them one by one; the lists of active and
-- inactive buffers, which nothing reads; the reading and writing back of inodes in the inode
-- area, the directory entries, and the numbers of devices in an inode. A function that holds a
-- spin lock throughout is one step.
pub mod Common
pub mod Files
pub mod Hash
pub mod Proc
pub mod Blk
pub mod Easyfs
pub mod Lru
pub mod Bitmap
pub mod ListHead
pub mod Fifo
pub mod Sched
pub mod Locks
pub mod Signal
pub mod Buddy
pub mod Slab
