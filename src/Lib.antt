-- ===== src/Lib.antt =====
-- The verification library of tros, a small kernel for i386.
--
-- What is modelled, and where (paths are from the repository's root):
-- * Bitmap (src/lib/kernel/bitmap.c): the allocation bitmaps of the memory manager and of the file
--   system. The bits are a pointer into memory, so that an access behind the last byte is what C
--   does. The loops run on fuel: the first has the number of bytes and one more, the second nine
--   (a byte has a clear bit, or the first loop had not stopped at it); scan_run counts bit_left.
-- * LinkList (src/lib/kernel/list.c): doubly linked lists in a store of prev and next pointers,
--   every write in the order of the source. The walks run on fuel; one more than the length of the
--   list is enough.
-- * IoQueue (src/device/ioqueue.c): the ring of characters under pipes, keyboard and terminal. A
--   function runs under the lock of the queue, and its turn ends in cv_wait or in its return.
-- * Pipe (src/ipc/pipe.c): the read and write loops over the queue, and the release of both ends.
-- * Sync (src/thread/sync.c, thread_unblock of src/thread/thread.c): a lock over a binary semaphore
--   as the interleaved steps of any number of threads, between which schedule changes the ready list.
-- * Memory (src/kernel/memory.c): the frames of the two pools, the page tables as the words seen
--   through the directory's entry for itself, the reservation of virtual pages, malloc_page and the
--   functions over it, mfree_page, and the layout that mem_pool_init computes. Two entries of the
--   directory that refer to one table (the first and the one at 3 GB, at start-up) are two tables.
-- * Keyboard (src/device/keyboard.c): the interrupt handler as a state machine on the bytes of the
--   port.
-- * Strings (src/lib/string.c): the loops over bytes, as functions of the memory. A loop that ends at
--   a zero byte runs on fuel, of which one more than the length of the string is enough.
-- * Heap (src/kernel/memory.c): sys_malloc and sys_free, with arenas and free lists over Memory and
--   LinkList. The fields of arenas and the links of free blocks are kept beside the words of Memory.
-- * Scheduler (src/thread/thread.c): the ready list, schedule, thread_block, thread_unblock and
--   thread_yield, on statuses and the list of ready threads.
-- * Tty (src/device/tty.c): the line discipline of the terminal, over IoQueue.
-- * Disk (src/device/ide.c): ide_read and ide_write, with their ASSERTs and the PANIC on a drive that is
--   not ready in time, on an array of sectors. The parts over it take a drive that answers in time.
-- * Inode (src/fs/inode.c, src/fs/file.c): the table of inodes on the disk, the inodes in memory with
--   their counts, the two bitmaps with bitmap_sync, and the release of a file's blocks.
-- * Files (src/fs/file.c, src/fs/fs.c, src/ipc/pipe.c, src/userprog/fork.c,
--   src/userprog/wait_exit.c): the file table, the descriptors of a process, sys_close, file_open,
--   sys_lseek, sys_pipe, sys_fd_redirect.
-- * Content (src/fs/file.c): file_write and file_read. Their loops run on fuel, one more than the
--   number of bytes, which is enough because every chunk has a byte.
-- * Format (src/fs/fs.c): partition_format and mount_partition.
-- * Atomic (src/lib/atomic.c): the loops of atomic_inc, atomic_dec and atomic_set as steps of threads.
-- * Stdio (src/lib/stdio.c): itoa and vsprintf, by the characters that they write. itoa runs on fuel
--   33, one more than the bits of a number, which is enough for the bases 10 and 16 of its calls.
-- * Signal (src/kernel/signal.c): handlers, pending signals, the frame of a handler and sys_sigreturn.
-- * Paths (src/fs/fs.c): path_parse and path_depth_cnt, the names of a path.
--
-- Prelude holds what they share: native naturals with Boolean tests, arithmetic of uint32_t, lists
-- over native indices, and the result of a kernel call (return, failed ASSERT, or fuel used up).
--
-- How the parts interact: a pipe calls its queue (Pipe uses IoQueue); a queue runs under a lock
-- (Sync), which is why its functions are single turns; the waiters of a semaphore are a list whose
-- links LinkList is about, and Sync has them as a plain list, as Scheduler has the ready threads. Memory
-- takes its frames and pages from Bitmap, Heap its pages from Memory and its free lists from LinkList;
-- Tty reads and writes a queue of IoQueue. Format writes through Disk what Inode relies on; Inode keeps
-- its bitmaps with Bitmap; Content takes blocks from Inode and writes its inodes back through it; Files
-- opens and closes inodes of Inode and releases pipes of Pipe, and its counts are those of Atomic.
--
-- A number of the C program is a natural number. A uint32_t keeps its wrap-around through add32 and
-- sub32, a uint8_t through `% 256`. A failed ASSERT and a PANIC are the value
-- panic.
--
-- What is not modelled: port input and output, interrupt set-up and assembly, since their effects
-- are those of devices and of the processor; user programs and their runtime, which are not the kernel;
-- and directories and the calls on paths, processes, condition variables and the streams of stdio,
-- which are yet to be modelled.
pub mod Prelude
pub mod Bitmap
pub mod LinkList
pub mod IoQueue
pub mod Pipe
pub mod Sync
pub mod Memory
pub mod Keyboard
pub mod Strings
pub mod Heap
pub mod Scheduler
pub mod Tty
pub mod Disk
pub mod Inode
pub mod Files
pub mod Content
pub mod Format
pub mod Atomic
pub mod Stdio
pub mod Signal
pub mod Paths
