-- ===== src/Plan.antt =====
-- The build plan of bins/src/redo.rs.
pub mod Words
pub mod Scope
pub mod Count
