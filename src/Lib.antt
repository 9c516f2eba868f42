-- ===== src/Lib.antt =====
-- A model of parts of UnstableOS. Of the kernel: the ids of a process, the queues on which its threads
-- sleep, signals, waiting for children, process groups, pipes, the table of inodes, locks and semaphores, red-black trees and the cluster chains of FAT; of
-- its C library, string.c in part, qsort, the reading of numbers and the conversions of UTF-8. Each
-- module gives the C functions that it names as executable definitions by clauses and proves
-- properties of them.
--
-- Base holds the names, tests on numbers, list functions and error numbers that the others share.
--
-- Process.Credentials is src/users.c: `Cred` holds the ids and groups of `process_t`, and each of the
--   ten calls sys_setuid, sys_setreuid, ... is a function from the ids to a result and the new ids.
--   Process.Credentials.Laws runs sequences of calls.
-- Process.Thread has the fields of `thread_t` that the sleep queue writes; a thread is named by a
--   number, and a `Threads` is the store of all.
-- Process.SleepQueue is src/kernel_sched_sleep_queue.c: the list `sq` of sleepers with the time each
--   waits beyond the one before it. A pointer that a removal leaves at freed memory is the constructor
--   `dangling`, and a read of it is `none`. Deadlines states what the queue means: every sleeper with its
--   time from now; Insert, Tick and Remove prove the operations against it. Process.Alarm is sys_alarm
--   of the same file.
-- Process.Futex is src/futex.c: the threads of a process as a list of records. The part of futex_wait
--   before the thread sleeps and the part behind it are two functions, `wait_begin` and `wait_end`
--   (`wait_end_timed` with a timeout); what happens between them is up to the other threads.
-- Process.ThreadQueue is src/kernel_sched_queue.c on a heap of nodes with the first node at the address
--   0; the address that kalloc returns is an argument. A wake-up takes fuel for the waiters that it may
--   have to pass over.
-- Process.Groups is src/process_groups.c with sched_find_process of src/kernel_sched.c: a store of
--   processes by address, and the tree that leads from ids to addresses. The walk up the ancestors in
--   sys_setpgid takes fuel; more than the number of ancestors is enough.
-- Process.Signals is src/kernel_signals.c over a store of processes: the two queues of a process in the
--   module itself, Parts and Dispatch from `signal_parent_cont` to `__signal_process`, Kill, Masks, and Handler
--   for the way into a handler and back. What C leaves undefined, `1 << (signal - 1)` for a shift by more
--   than 31 and the byte behind the table of default actions, is the parameter `Undefined`; the page
--   tables and the layout of the state on the stack are the parameter `Memory`. `__signal_process` calls
--   itself for the parent, so `signal_process` takes fuel; 2 is enough. Changes has the writes that
--   dispatch makes one by one; Kept, KeptByHandlers and Calls are about the runs of calls. PAUSE_SIGNALS, with
--   which other files set the mask of a thread for a while, is not among the calls, and neither are tgkill,
--   sigsuspend and `signal_retry_process`: its loop over the real-time queue frees the first node and
--   leaves `sa_rt_queue` at it.
-- Process.Wait is src/kernel_wait.c: sys_waitpid, and sys_waitid in Waitid. A `Family` has the two lists of
--   processes and what a wait changes of the caller; `Wake` is what the thread finds when it has slept,
--   and a call with no `Wake` left is `asleep`. The loops are structural on the list of these.
-- Rbtree is src/rbtree.c without the removal, on the tree that the pointers span: the searches, and
--   rbtree_add with bstree_rotate. The way back up that rbtree_add takes along the parent pointers is a
--   list of steps down, with the other child of each. Order gives the nodes of a tree as a list, Insert
--   compares rbtree_add with an insertion without rotations, Balance is about the colors.
-- Sync is src/kernel_sync_primitives.c for any number of threads whose steps interleave in any order:
--   Sync.Spinlock, Sync.RwLock and Sync.Semaphore each have a relation `Move` of the atomic steps of one
--   thread, a `System` of the lock and the place of each thread, and `Reach`, the systems that
--   sequences of steps lead to. A thread that finds a spinlock taken has no step until it is free.
-- Libc.Strings is the comparisons and searches of libc/src/string.c. A pointer is the list of the bytes
--   that may be read from it, so a read beyond the end shows. Libc.Strings.Digits is itoad, itoaud, itoax
--   and itoao of the same file, and Libc.Strings.Swap their second loop; their fuel of 64 is the number
--   of bits of the argument.
-- Libc.Numbers is libc/src/stdlib_strto.c with the tests on characters of
--   libc/src/ctype.c. strtoull and strtoll have the same text in C and share their steps here, with a
--   `Width` for the overflow. The steps before the digits are functions that pass the rest of the text on.
-- Libc.Qsort is libc/src/qsort.c on an array of whole elements. The fuel of the loops is the number of
--   elements between the two pointers and two more, that of the recursion the number of elements.
-- Libc.Utf8 is libc/src/wchar/convs.c: `wcrtomb`, `mbrtowc` and the conversions of texts, with
--   `mbstate_t` as the word that the code keeps in it. Encode compares with the table of UTF-8, Decode and
--   TextOut read back, Pieces splits the input. The first two loops take fuel for the six shifts by 6 bits
--   that a word can need; `mbs_loop` takes one round for each byte of its limit.
-- Fs.Pipe is src/fs/pipe.c. A `View` is the pipe with the calls on queues and signals made so far. A call
--   that sleeps takes the next `Wake` of its schedule: the pipe as the thread finds it when it runs again,
--   and whether a signal has come. With no `Wake` left it is `asleep`. The locks are not modelled: between
--   two sleeps the thread holds `pipe_lock`. `pipe_read` runs on fuel of one round for each byte wanted and
--   each wake-up, and one more, which is always enough; `pipe_write` is structural. Ring relates the
--   circular buffer to the bytes it holds.
-- Fs.Inodes is the table of inodes of src/fs/inode.c, a list of slots. Slots has the searches after a write,
--   Keys what a write does to the lookups of superblocks and ids, Added and Again the two ways through
--   `register_inode`, Lookup the table as a map. `open_dev` is a parameter that may write the table and answer
--   with another slot, as a `repl_open` does.
-- Fs.Disk is the sequence of bytes that the device holds, with reads and writes of little-endian words.
-- Fs.Fat is src/fs/vfat/fat_chains.c on the layout of src/fs/vfat/fat_internal.h, for the three widths of
--   the table. A failed `kassert` is `none`, an I/O error is a result. `fat_free_chain` follows links of
--   the disk and takes fuel; the fuel that a chain needs is proved. The other loops are structural.
--
-- The word width is that of the target, 32 bits: `size_t`, `unsigned` and the ids wrap at 2 ^ 32 where
-- the code computes with them. `time_t` has 64 bits, and its sums are those of the unbounded numbers.
--
-- Not modelled: rbtree_remove, the scheduler and the context switch, interrupts, memory management, the other
-- file systems, device drivers, the dynamic linker, the rest of the C library and the user programs.
pub mod Base
pub mod Fs
pub mod Libc
pub mod Process
pub mod Rbtree
pub mod Sync
