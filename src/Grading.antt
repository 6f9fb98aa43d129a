-- ===== src/Grading.antt =====
-- The grading program (grading/): the workload's transactions and what runs them.
pub mod Shared
pub mod Bank
pub mod Transaction
pub mod Chrono
pub mod Sync
pub mod Measure
pub mod Main
pub mod Barrier
mod Examples
