-- ===== src/TableTab.antt =====
-- A table's tab (frontend/src/workbench/tabs/TableTab/state): its store, the store of structures,
-- and the fetching of its rows.
pub mod State
pub mod Actions
pub mod Paging
pub mod Pages
pub mod Invariant
pub mod Selection
pub mod Structure
pub mod Independent
pub mod Fetching
pub mod FilterBar
pub mod Filtered
pub mod Fetched
pub mod FetchSteps
pub mod Streamed
pub mod Answered
