-- ===== src/SyncExamples.antt =====
-- The programs of sync-examples/: counters, leader elections and queues, right and wrong ones.
pub mod Counters
pub mod Elections
pub mod Queues
mod Examples
