-- ===== src/Editing.antt =====
-- The editing of a table's rows (frontend/src/workbench/tabs/TableTab/components): what the grid
-- shows of the queued changes, the handlers that queue changes, and the dialog for a new row.
pub mod Pending
pub mod Shown
pub mod Drawn
pub mod Handlers
pub mod Edited
pub mod Deleted
pub mod AddRow
pub mod Form
pub mod Entered
pub mod Added
pub mod Menu
pub mod Guarded
pub mod Cells
pub mod Alone
