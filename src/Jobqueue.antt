-- ===== src/Jobqueue.antt =====
-- internal/jobqueue: the queue's table, its clients and its workers.
pub mod Task
pub mod Server
pub mod Claims
pub mod Retries
pub mod Rows
pub mod System
pub mod Statements
pub mod Locks
pub mod Kept
pub mod Holders
pub mod Exclusive
pub mod Reclaimed
pub mod Late
