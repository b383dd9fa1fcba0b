-- ===== src/Lib.antt =====
-- A model of the core of the OS/161 kernel of this repository, under src/kern, with the theorems
-- that make it correct or show where it is not.
--
-- The parts, and how they stand to each other:
-- - Bitmap: src/kern/lib/bitmap.c. A bitmap is the number of its bits and its bytes; bitmap_alloc,
--   _mark, _unmark, _isset and _create are functions on it (Bitmap). Its abstract view is the set of
--   used indices (Bitmap.View), in which the theorems are stated.
-- - Sfs: src/kern/fs/sfs. Sfs.Io has the retrying block I/O of sfs_io.c over a device that is a
--   parameter, Sfs.Balloc the block allocator sfs_balloc.c on top of the bitmap, Sfs.Bmap and
--   Sfs.Trunc the functions sfs_bmap and sfs_itrunc of sfs_bmap.c, which map the blocks of a file and
--   free them. Sfs.Metaio has sfs_metaio on top of that, and Sfs.Dir the directories of sfs_dir.c,
--   whose theorems are stated for a device without errors (Sfs.Metaio.Laws.Reliable) and a directory
--   of at most fifteen blocks. Sfs.File has sfs_io, sfs_partialio and sfs_blockio over a uio, the
--   device's own transfer to the uio being a parameter; Sfs.File.Read is on reading.
-- - Vm: src/kern/arch/mips/vm/mipsvm.c. Vm.Ram and Vm.Coremap have physical memory and vm_bootstrap,
--   Vm.Kpages alloc_kpages and free_kpages, Vm.Addrspace the address spaces that use them, and their
--   copy with the C library's memmove, Vm.Fault the handler vm_fault, with the TLB's instructions as
--   a parameter.
-- - Synch: src/kern/thread. Synch.Wchan has the wait channels of thread.c, and Synch.Semaphore,
--   Synch.Lock, Synch.Cv and Synch.Rwlock the primitives of synch.c. Each call is cut into the steps
--   between which its spinlock is free; an interleaving of threads is a sequence of steps. Those
--   of a condition variable are also cut where cv_wait holds its spinlock and calls lock_release
--   (Synch.Cv.Steps).
-- - Syscall: src/kern/arch/mips/syscall/syscall.c. Syscall.Files has sys_open, sys_read, sys_write and
--   sys_close over a heap of file descriptors that several processes share, Syscall.Sbrk sys_sbrk on
--   the heap bounds of Vm.Addrspace, Syscall.Dispatch the function syscall() that calls them.
-- - Process: fork, getpid, waitpid and exit of syscall.c over the table proc_Array, with a process's
--   semaphores as counters. A call is cut where it may sleep.
-- - Threadlist: src/kern/thread/threadlist.c, whose lists the wait channels and the scheduler use. The
--   nodes are records in memory, linked by addresses; Threadlist.Invariant says when they are those of
--   a list.
-- - Array: src/kern/lib/array.c and src/kern/include/array.h, arrays that grow. The doubling loop has
--   33 rounds of fuel, which Array.Growth shows to be enough; Array.Items has the list that an array
--   stands for.
-- - Kmalloc: src/kern/vm/kmalloc.c, the kernel heap: pages cut into blocks of one of eight sizes, the
--   free blocks of a page linked through their first words (Kmalloc.Pages). Kmalloc.Invariant says when
--   the pages, the lists of pages and the blocks are in order; Kmalloc.Search and Kmalloc.NewPage have
--   the two halves of subpage_kmalloc, between which the lock is let go, and Kmalloc.Free has
--   subpage_kfree. The modes SLOW, GUARDS and LABELS are undefined in the file and left out.
-- - Copyinout: src/kern/vm/copyinout.c, copies between the kernel and user space. Which user addresses
--   can be touched is a parameter.
-- - Uio: src/kern/lib/uio.c, moves between the kernel and a list of buffers, over Copyinout and Libc.
--   Uio.Move takes the buffers as one sequence of places. The loops run on fuel, of the bytes and the
--   buffers left, which Uio.Laws shows to be enough.
-- - Libc: src/common/libc, which the kernel shares with the user programs: memcpy, memmove, memset and
--   bzero on a memory of bytes (Libc.Memory), the string functions and atoi on arrays of chars
--   (Libc.Text).
-- - Prelude has what all share: Boolean tests, arrays, and the outcomes of a call. `ret` is a call that
--   returns, `panic` a failed KASSERT or a call of panic(), `wild` an access outside an array or
--   through a pointer that is NULL or freed. An error number is a value (Reply).
-- - Tests has the theorems at concrete inputs.
--
-- Numbers are natural numbers, with the wrap-around of 32-bit words written out. Loops are structural
-- on the list they run over, or on the number of rounds left: the ten retries of sfs_rwblock, the
-- words of a bitmap, the pages of the coremap, the 64 entries of the TLB. That number is the bound of
-- the source's loop, so no round is missing.
--
-- Not modelled: kmalloc in its callers, where it is a parameter, or its failures where a function
-- tests for them, and the allocation of pagerefs in kmalloc.c; the virtual file system above sfs, an
-- interface here; the inodes of sfs; sys_execv, and the stack and registers of the thread that fork
-- starts; the scheduler, spinlocks and interrupt levels; printf; drivers, start-up code and user
-- programs.
pub mod Prelude
pub mod Bitmap
pub mod Sfs
pub mod Vm
pub mod Synch
pub mod Syscall
pub mod Process
pub mod Threadlist
pub mod Array
pub mod Kmalloc
pub mod Copyinout
pub mod Uio
pub mod Libc
pub mod Tests
