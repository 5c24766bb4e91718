-- ===== src/Builder.antt =====
-- redo_core/src/builder.rs
pub mod Build
pub mod Directive
pub mod Pool
pub mod Script
pub mod Shuffle
pub mod Start
pub mod Trace
