-- ===== src/Locks.antt =====
-- LockManager/: the key lock table with FIFO waiters.
pub mod State
pub mod Manager
pub mod WaitForGraph
