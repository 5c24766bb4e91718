-- ===== src/Commands.antt =====
-- The small programs of bins/src.
pub mod Target
pub mod Listing
pub mod Ifchange
