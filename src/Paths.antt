-- ===== src/Paths.antt =====
-- redo_core/src/paths.rs
pub mod Components
pub mod Normalize
pub mod DoFiles
