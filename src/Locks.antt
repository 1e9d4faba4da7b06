-- ===== src/Locks.antt =====
-- kernel/locks: the sleeping locks, each with the interleavings of its users.
pub mod Semaphore
pub mod Mutex
pub mod RwLock
pub mod SpinLock
