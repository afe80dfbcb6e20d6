-- ===== src/Catalog.antt =====
-- What the adapters (frontend/src/workbench/lib/databases/{postgres,mysql}) make of the rows that a
-- server answers to their queries of its catalogs.
pub mod Rows
pub mod Replies
pub mod Objects
pub mod Loads
pub mod Grouped
pub mod FetchReads
