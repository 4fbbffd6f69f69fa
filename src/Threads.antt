-- ===== src/Threads.antt =====
-- threads/thread.c, threads/interrupt.c: threads, the ready queue, the sleeping queue, the tick.
pub mod Block
pub mod Fair
pub mod Kernel
pub mod Invariant
pub mod Queue
pub mod Schedule
pub mod Sleep
pub mod Tick
pub mod Unblock
