-- ===== src/Lib.antt =====
-- Winx, a small operating system kernel for the x86: models of its parts in C and their correctness.
--
-- Paths are those of the repository. A file models the C file that its first comment names, and its
-- children prove what the code does.
--
-- - CString: src/impl/string.c over a byte memory, a function from addresses to bytes. Its `fill` is
--   what Bitmap uses where the code calls `memset`.
-- - Bitmap: src/kernel/bitmap.c, which the pools of pids, pages, blocks and inodes stand on.
-- - Math: src/impl/math.c, the division of 64-bit numbers. Cmos calls it.
-- - Cmos: src/device/cmos.c, dates and timestamps, and the clock as it is read at the start.
-- - Thread: the scheduler of src/thread/thread.c and the timer interrupt of src/device/timer.c. A
--   thread is the number of its task_struct; the ready list is the sequence of its threads.
-- - Sync: src/thread/sync.c. `thread_block` and `thread_unblock` are those of Thread. Sync/System has
--   every thread somewhere between its calls on one lock, and runs of their turns in any order.
-- - IoQueue: src/device/ioqueue.c, over Sync and Thread.
-- - Keyboard: the interrupt handler of src/device/keyboard.c, over IoQueue.
-- - Stdio: `itoa` of src/impl/stdio.c, into the memory of CString.
-- - Volume: the mounted partition of src/fs/fs.c (lib/device/ide.h, lib/fs/super_block.h), with the
--   sectors of the disk as a function from their numbers to their bytes. `ide_read` and `ide_write`
--   of src/device/ide.c are reading and replacing sectors there.
-- - Inode: src/fs/inode.c, the inodes on the disk and those that are open.
-- - File: src/fs/file.c without its writes: descriptors, the bits of blocks and inodes over Bitmap,
--   and `file_read`. FileWrite: its `file_write`, over File and Inode.
-- - Calls: `sys_write`, `sys_read`, `sys_lseek` and `sys_close` of src/fs/fs.c and `file_open`
--   and `file_close` of src/fs/file.c, over Inode, File and FileWrite. What a process types is a
--   parameter, `typed`.
-- - Pages: src/kernel/memory.c below `sys_malloc`: the pools of pages, the virtual addresses in use and
--   the page tables, over Bitmap. The page tables are the words of the window behind which the page
--   directory maps itself, and `translate` reads them as the processor does.
-- - Links: src/kernel/list.c on a heap of elements. Its children show that a list holds a sequence,
--   which is what Thread has in its place.
-- - Arenas: `sys_malloc` and `sys_free` of src/kernel/memory.c, over Pages, with the free lists as the
--   sequences that Links stands for.
-- - Ide: `ide_read` and `ide_write` of src/device/ide.c, as the commands that the disk gets.
-- - Pids: the numbers of processes in src/thread/thread.c, over Bitmap.
-- - Path: `path_parse` of src/fs/fs.c, over strings of CString.
-- - Base: what they share: the outcome of a call, tests, lists, memory and bits.
--
-- A function keeps the name and the order of arguments of the C function. What a C function changes
-- is part of its result. A failed ASSERT and a PANIC, which stop the machine, are the outcome
-- `halted`. Numbers are natural numbers; a uint32_t, uint16_t or uint8_t that can overflow has the modulus
-- written out. Interrupts off are the field `intr_on` of the kernel.
--
-- A function that switches to another thread ends its turn there: the state that it returns is the
-- one in which the other thread goes on, and what the first one does when it runs again is a
-- function of its own (`sema_down_loop`, `ioq_getchar_again`, `ioq_putchar_again`).
--
-- Loops that the source does not bound run on fuel, and `unfinished` is the outcome that has too
-- little. In Bitmap it is two rounds more than the map has bits, since every round moves on by a bit
-- at least; in Cmos a round for each day, since a year takes more than one, and thirteen for the
-- months. The functions on strings take the fuel as an argument: a byte takes a round of it. In
-- `itoa` a round takes a bit at least, so that 32 are enough for a uint32_t. `time_init` reads the
-- clock until two readings agree, which a running clock may prevent for any number of rounds. The
-- loops of `file_read` and `file_write` have a round more than bytes to move, of which a round moves
-- at least one. The searches of Links want a round more than the list has elements, and the loops of
-- Ide one more than there are sectors.
--
-- Parameters stand for what is not C: the instruction `divl` of Math, the ports of the clock,
-- how the compiler lays out `struct inode` (`Layout` of Inode), and whether the disk of Ide is ready.
--
-- Not modelled: assembly (`switch_to`, interrupt entry, boot), port output (timer and interrupt
-- controller, console), and start-up, which only calls the initialisers; and of the kernel's own
-- parts the contents of pages, directories and the calls of the file system over them,
-- `inode_release`, the scan of the partitions, the creation and the end of threads and processes,
-- pipes, the formats of vsprintf and the shell.
pub mod Base
pub mod CString
pub mod Bitmap
pub mod Math
pub mod Cmos
pub mod Thread
pub mod Sync
pub mod IoQueue
pub mod Keyboard
pub mod Stdio
pub mod Path
pub mod Volume
pub mod Inode
pub mod File
pub mod FileWrite
pub mod Calls
pub mod Arenas
pub mod Ide
pub mod Pids
pub mod Links
pub mod Pages
