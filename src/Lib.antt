-- ===== src/Lib.antt =====
-- The Pintos kernel: its thread scheduler, its synchronization primitives, the map of free sectors,
-- the files of its file system, its pages of memory, and its string functions, as functions that run,
-- with the theorems that make them correct. The code is under pintos/src; paths below are from there.
--
-- Parts. threads/thread.c keeps the ready list and the queue of sleeping threads and switches between
-- threads; threads/interrupt.c keeps the interrupt level and calls the scheduler at the end of an
-- external interrupt; devices/timer.c counts ticks and calls the scheduler once a tick;
-- threads/synch.c builds semaphores, locks and condition variables on blocking and unblocking.
-- lib/kernel/bitmap.c packs flags in 32-bit words; filesys/free-map.c keeps the sectors in use in
-- such a bitmap. filesys/inode.c keeps the inodes that are open, creates and frees them with that
-- map, and reads and writes the bytes of a file in the sectors of a block device (devices/block.c),
-- filesys/file.c keeps a position in a file that is open, and filesys/directory.c keeps names in the
-- bytes of a file. devices/intq.c is a ring of bytes between threads and interrupt handlers.
-- lib/stdio.c formats output. lib/string.c has the functions on blocks of bytes and strings,
-- lib/random.c the generator of random bytes, lib/stdlib.c sorting and searching. lib/kernel/list.c
-- and lib/kernel/hash.c are the lists and hash tables of the kernel. threads/palloc.c hands out the
-- pages of two pools, with a bitmap for each; userprog/pagedir.c maps the pages of user memory to
-- frames.
--
-- Files.
--   Threads/Kernel: the state. `Kernel` holds the threads by address, the CPU's current thread and
--     interrupt flag, the static variables of thread.c, interrupt.c and timer.c, and the
--     semaphores, lock holders and condition queues by address. `M` is a computation on it that
--     ends with `ok` or with `panic`, where an ASSERT fails; intr_enable, intr_disable,
--     intr_set_level and intr_get_level are here.
--   Threads/Schedule: schedule, next_thread_to_run, thread_schedule_tail, thread_block,
--     thread_unblock, thread_yield, thread_exit, thread_current. A switch is the change of `cpu`:
--     what a function does after `schedule ()` runs when its thread is switched to again.
--   Threads/Schedule/Switch, Threads/Invariant, Threads/Queue, Threads/Block, Threads/Unblock,
--     Threads/Fair: what a switch does, the invariant of the scheduler, its preservation, fairness.
--   Threads/Sleep and its modules: thread_sleep and update_slept_threads.
--   Threads/Tick and its modules: thread_tick, timer_interrupt, intr_handler.
--   Synch/Semaphore, Synch/Lock, Synch/Condition: threads/synch.c. A call that sleeps ends with the
--     outcome that says where the thread goes on; the rest of the call is a function of its own.
--     Synch/Lock/Steps is the interleaving of threads that use one lock.
--   Bitmap and its modules: lib/kernel/bitmap.c. FreeMap and its modules: filesys/free-map.c,
--     with bitmap_write, and the file that keeps the map as an inode on the device.
--   Strings and its modules: lib/string.c, on a memory that maps addresses to bytes.
--   Inode and its modules: inode_read_at, inode_write_at and the denial of writes in
--     filesys/inode.c, over block_read and block_write of devices/block.c. File and its module:
--     filesys/file.c.
--   OpenInodes: the list of open inodes and the other functions of filesys/inode.c, with
--     OpenInodes/Opening, OpenInodes/Closing and OpenInodes/Creation. OpenFiles: file_open,
--     file_reopen and file_close of filesys/file.c.
--   Directory: creating, opening and closing directories, in filesys/directory.c. Directory/Entries:
--     its other functions, on the bytes of the directory's inode and a memory that holds the name and
--     the entry. Directory/Lookup, Directory/Search, Directory/Slot, Directory/Add and
--     Directory/Roundtrip: what looking up and adding do.
--   Intq: devices/intq.c over the thread system, with Intq/Contents for the bytes that the ring holds
--     and Intq/Transfer for what putting and taking do.
--   Stdio: lib/stdio.c, with Stdio/Parse for the parts of a conversion and Stdio/Print for __vprintf
--     and vsnprintf; Stdio/Bounds, Stdio/Digits, Stdio/Roundtrip, Stdio/Buffer and Stdio/Rounds are
--     proofs. A format is a list of characters and the output is the list of what `output` is called
--     with. Stdlib/Atoi: atoi of lib/stdlib.c.
--   Pagedir: userprog/pagedir.c with threads/pte.h and threads/vaddr.h; Pagedir/Tables has the order
--     of the tables, Pagedir/Mapping, Pagedir/Creation, Pagedir/Addition and Pagedir/SetPage the
--     addition of a page, Pagedir/Marks and Pagedir/Flags the flags of an entry.
--   Palloc: threads/palloc.c over the bitmap; Palloc/Get, Palloc/Free and Palloc/Init are
--     proofs.
--   Random and its module: lib/random.c.
--   Links: lib/kernel/list.c on links between addresses, with Links/Loops for its loops. Links/Chain,
--     Links/Represent, Links/Operations, Links/Traverse: what a list does to the sequence it holds.
--     Sequence: the queues of the scheduler, which are such lists, as sequences.
--   Hash and its modules: lib/kernel/hash.c, with the sequence that its list holds for a bucket.
--   Stdlib and its modules: sort, qsort, binary_search and bsearch of lib/stdlib.c.
--   Base: shared names, tests on numbers, lists, bits, and the checks of ASSERT.
--   Tests: each theorem at a concrete state, and runs.
--
-- Bounds and fuel. Numbers are natural numbers; thread_ticks, which the source declares unsigned,
-- wraps at 2 ^ 32, and a word of a bitmap has 32 bits. Addresses are numbers, NULL is 0. The loop of
-- cond_broadcast runs on a fuel of one round more than there are waiters: each round takes one out. A
-- loop that looks for the null byte of a string makes at most as many rounds as there are addresses
-- below 2 ^ 32 left; a string that ends below 2 ^ 32 ends it before. The loops of inode_read_at and
-- inode_write_at run on a fuel of `size` rounds: each moves a byte at least. The loops over a list
-- run on a fuel of 2 ^ 32: its elements have different addresses below that. heapify has a fuel of
-- the size of the array, since a round moves down the heap; binary_search a round more than there are
-- elements, and says when it is out of fuel; the search for a power of 2 in rehash makes its number
-- smaller in each round. The loops of the bitmap count down the bits that are left. The loops over a
-- directory make a round for each entry and one more; the loops of format_integer a round for each
-- place of its buffer and one more; __vprintf a round for each character of the format.
--
-- Not modelled. Creation of threads, the priorities, which the scheduler does not read, and the
-- branches of USERPROG; the context switch and the interrupt stubs, which are assembly; the drivers
-- of the devices, whose storage is the contents of a block device; the lock of a pool of pages, and
-- that its map lies in the memory it hands out; pagedir_create, pagedir_destroy and the register that
-- pagedir_activate loads; hex_dump and print_human_readable_size, which call printf; free_map_open,
-- free_map_close and free_map_create. What malloc and calloc give is an argument, or a part of the
-- state where the free map's file is written.
pub mod Base
pub mod Bitmap
pub mod Directory
pub mod File
pub mod FreeMap
pub mod Hash
pub mod Inode
pub mod Intq
pub mod Links
pub mod OpenFiles
pub mod OpenInodes
pub mod Pagedir
pub mod Palloc
pub mod Random
pub mod Sequence
pub mod Stdio
pub mod Stdlib
pub mod Strings
pub mod Synch
mod Tests
pub mod Threads
