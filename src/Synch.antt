-- ===== src/Synch.antt =====
-- src/synch: the semaphore and the recursive mutex.
pub mod Spinlock
pub mod Semaphore
pub mod RecursiveMutex
