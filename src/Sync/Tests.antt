-- ===== src/Sync/Tests.antt =====
-- The locks and semaphores with two threads.
mod RwLocks
mod Spinlocks
mod Semaphores
