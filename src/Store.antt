-- ===== src/Store.antt =====
-- redo_core/src/state.rs: the state database, its transactions and the records of files.
pub mod Rows
pub mod Tables
pub mod Transactions
pub mod Stamps
pub mod Files
pub mod Locks
