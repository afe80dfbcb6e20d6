-- ===== src/NewTable.antt =====
-- The form for a new table (frontend/src/workbench/tabs/NewTableTab): its fields, what they define,
-- and its submission.
pub mod Form
pub mod Edits
pub mod Submit
pub mod Submitted
