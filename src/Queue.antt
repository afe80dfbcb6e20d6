-- ===== src/Queue.antt =====
-- The queue of row and column changes that a tab collects until they are committed
-- (frontend/src/workbench/lib/mutations).
pub mod Entries
pub mod Target
pub mod Commit
pub mod Committed
pub mod Statements
