-- ===== src/Details.antt =====
-- How the details pane shows a value
-- (frontend/src/workbench/tabs/TableTab/components/panes/details).
pub mod Json
pub mod Formatters
pub mod Pretty
pub mod Truncated
pub mod Views
