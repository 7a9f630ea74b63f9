-- ===== src/Lib.antt =====
-- A model of the kernel under oslab/linux-0.11, a Linux 0.11 with semaphores, shared memory and
-- process files of its own, and theorems about it.
--
-- The parts that are modelled, by file. Paths are those of the repository, under oslab/linux-0.11.
--   Mktime: kernel/mktime.c. `kernel_mktime` with its constants and its table; the sum over the
--     integers, which the 32-bit `long` takes modulo 2^32, of either sign. Mktime/Calendar is the
--     calendar that it is compared with.
--   Memory: mm/memory.c. The state is `mem_map`, `HIGH_MEMORY` and the words of physical memory by
--     address, with the page directory at 0 (Memory/Defs); the functions keep their names.
--     Memory/Frames is about frames and their counts, Memory/Paging about the translation of
--     addresses, Memory/Cow about copy on write.
--   Lamport: include/linux/lamport.h, the lock of the semaphores. Lamport/Scan has its searches,
--     Lamport/Lock the lock in a table that no task holds.
--   Sem: kernel/sem.c. `sem_open`, `sem_unlink` and `inisem` on the table `semarray`; Sem/Names and
--     Sem/Open are about names, Sem/Roundtrip about making and unlinking. Sem/Wait has `sem_wait` and
--     `sem_post` with `sleep_on` and `wake_up` of kernel/sched.c; Sem/Wait/Chains is about the chain
--     of sleeping tasks, Sem/Wait/Steps about runs of several tasks.
--   Sched: kernel/sched.c and the task fields of include/linux/sched.h: `schedule` up to the switch.
--     Sched/Select is about its search, Sched/Next about the task it ends with,
--     Sched/Signals about the tasks that it wakes.
--   Timers: kernel/sched.c, `add_timer` and what `do_timer` does with `timer_list`, where an entry is
--     its index. Timers/Sift is about the loop of `add_timer`, Timers/Due about the list that it
--     leaves, Timers/Late about the times at which timers are due, Timers/Expire about `do_timer`.
--   Console: kernel/chr_drv/console.c, with the queues of include/linux/tty.h in Queue. Console/Defs
--     has the state, the cursor, scrolling and erasing; Console the escape sequences, `con_write` and
--     `con_init`. Console/Video is about the loops over video memory, Console/Screen, Console/Scroll
--     and Console/Edit about the operations, Console/Write about `con_write`, Console/Lines about
--     what is shown. `pos` and `origin` are addresses; video memory is read by words of 16 bits.
--     `con_write` is followed up to its first call of `copy_to_cooked` of kernel/chr_drv/tty_io.c,
--     whose echo comes back to it.
--   Shm: mm/shm.c, over the state of Memory and the table `shmnum`. Shm has `inishm`, `ftok`,
--     `find_empty_adress` and `shmget`; Shm/Attach has `shmat` and `shmdt`. Shm/Search and Shm/Get are
--     about what they find, Shm/Attach/Mapped, Anywhere and Cancel about the pages that are mapped.
--     Memory/Tables has what this needs of page tables.
--   Process: kernel/sys.c and the signal mask of kernel/signal.c. Process/Identity is about user and
--     group identities, Process/Limits about `brk` and process groups.
--   Pipe: `read_pipe` and `write_pipe` of fs/pipe.c, up to where they return or sleep. Pipe/Bytes has
--     the bytes that a pipe holds, Pipe/Fifo what the calls do to them.
--   Ctype: include/ctype.h and lib/ctype.c. A character is a signed integer, and a test is none where
--     it reads outside the table. Ctype/Ascii is about ranges of codes.
--   Fork: `find_empty_process` of kernel/fork.c. Fork/Draw is about its loop, with the pigeonhole
--     principle of Fork/Pigeons, and Fork/Find about what it finds.
--   Exit: `sys_kill`, `kill_session` and `sys_waitpid` of kernel/exit.c, up to where the last one
--     sleeps; the call of `schedule` in `release` is not followed. Exit/Loops, Send and Kill are about
--     signals, Exit/Wait, Children and Reap about children.
--   Signals: `sys_signal`, `sys_sigaction` and `do_signal` of kernel/signal.c. The stack is a function
--     from addresses to longs; `verify_area`, which copies shared pages, is not followed, and the
--     user's structures are read and written by the caller. Signals/Frame is about the stack that
--     `do_signal` leaves, Signals/Handlers about calls that set handlers.
--   Fs: the blocks of a mounted device and of its files. Fs/Device has what the super block and the
--     buffers of fs/buffer.c show of the device; Fs/Bitmap is fs/bitmap.c, with `free_block` and
--     `new_block`, and Fs/Bmap `_bmap` of fs/inode.c with `bmap` and `create_block`.
--     Fs/Bitmap/Search is about the search for a clear bit, Blocks and Keep about the set of used
--     blocks; Fs/Bmap/Entry, Create and Found are about the blocks that are made and found.
--     Fs/Truncate is fs/truncate.c; Shrinks and Entries are about what is freed, Zones about the file
--     that is left, Direct about files without blocks of entries.
--   Strings: include/string.h, with a loop for each string instruction. Strings/Move is about moves of
--     bytes, Strings/Copy about copies of strings and their length, Strings/Append about `strcat` and
--     `strncat`. Loops up to a 0 take rounds, of which one more than the bytes is enough.
--   Format: `number` of kernel/vsprintf.c, on 32-bit numbers; the loop for the digits takes 32 rounds,
--     as many as the bits. Format/Digits is about the digits, Format/Parts and Number about the rest.
-- Base has what they share: Boolean tests, lists and arrays by native index, signed integers.
--
-- How code is read. A C array is a function from its indices, updated at one index; a loop over it
-- is a recursion on the rounds left. An unsigned number is a natural number with its wrap-around
-- written out; a mask is the division and remainder that it stands for. The counters of tasks are
-- longs by their 32 bits; the users of a buffer (`b_count`, a byte) are counted without wrap-around.
-- These loops take fuel: that of `schedule`, for which two rounds are enough where priorities are from
-- 1 to 2^30; those of the pipes, for which one round more than the bytes to move is enough; and the
-- search of `findEmptyAdress`, for which one more than the pages is enough where no page in use makes
-- it endless, and endless means that no number of rounds is enough. The loop that draws a pid takes 65
-- rounds, one more than there are slots. The loops over the timers take as many rounds as the table
-- has entries, and the lists that the theorems are about are shorter. Every other loop is counted, but
-- for the two `while` loops of `lamportLock`, which read what other tasks write. The kernel does not
-- preempt a task inside it, so those either pass at once or never end, and the outcome says which. The
-- loop of `sys_sem_wait` leaves the processor in each round and is a sequence of steps: a call, then
-- one `sem_wait_resume` after each return of `schedule`.
-- `panic` does not return and is an outcome; `do_exit` ends the task and is an outcome with the
-- memory that it finds. The inline assembly of `get_free_page` and of `strncmp` is read as the loop
-- that it is. Messages of `printk` change no state and are left out. A name is the C string that its
-- 20 bytes hold, so that `strncmp` over 20 bytes is equality; a task is named by its pid.
--
-- Not modelled: `strspn`, `strcspn`, `strpbrk`, `strstr` and `strtok`;
-- `share_page` and `do_no_page`, which walk the task table and read the disk;
-- `calc_mem`, which prints; what `do_timer` does beside the list of timers; of the file system the
-- inode table and its bitmap, the super blocks, the buffer cache, paths and open files; the block
-- devices; the terminals beside the console; `copy_process` and `do_exit`; the formatted output but
-- for `number`; the allocator of lib/malloc.c; the assembly files; the user stubs of lib, and the
-- programs of test6.
pub mod Base
pub mod Console
pub mod Ctype
pub mod Exit
pub mod Fork
pub mod Format
pub mod Fs
pub mod Lamport
pub mod Memory
pub mod Mktime
pub mod Pipe
pub mod Process
pub mod Queue
pub mod Sched
pub mod Sem
pub mod Shm
pub mod Signals
pub mod Strings
pub mod Timers
