-- ===== src/ActionCache.antt =====
-- The local action cache, redo_core/src/action_cache.rs.
pub mod Keys
pub mod Contents
pub mod Streams
pub mod Injective
pub mod Always
pub mod Gc
pub mod Meta
