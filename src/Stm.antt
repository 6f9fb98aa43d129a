-- ===== src/Stm.antt =====
-- The transaction manager of 394984/: TL2 over one shared memory region.
pub mod State
pub mod Lock
pub mod Region
pub mod Transaction
pub mod Access
pub mod Commit
pub mod Client
pub mod Clock
pub mod Alone
pub mod Races
mod Examples
