-- ===== src/Sidebar.antt =====
-- The stores of the sidebar (frontend/src/workbench/features) and what loads them.
pub mod Columns
pub mod Schemas
pub mod Stars
pub mod Loaded
