-- ===== src/Backend.antt =====
-- The remote backend (frontend/src/workbench/lib/backends): queries, streamed results and history.
pub mod Stream
pub mod Remote
pub mod Lines
pub mod Chunks
pub mod Told
pub mod Announced
pub mod Local
pub mod History
