-- ===== src/Synch.antt =====
-- threads/synch.c: semaphores, locks and condition variables.
pub mod Condition
pub mod Lock
pub mod Semaphore
