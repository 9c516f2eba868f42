-- ===== src/Sync.antt =====
-- The locks and semaphores of src/kernel_sync_primitives.c, with any number of threads whose steps are
-- interleaved in any order. An atomic access is one step.
pub mod Threads
pub mod Spinlock
pub mod RwLock
pub mod Semaphore
mod Tests
