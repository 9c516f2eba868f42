-- ===== src/Process.antt =====
-- Processes and threads: their ids, and the queues on which threads sleep.
pub mod Credentials
pub mod Thread
pub mod SleepQueue
pub mod Alarm
pub mod Futex
pub mod ThreadQueue
pub mod Groups
pub mod Signals
pub mod Wait
