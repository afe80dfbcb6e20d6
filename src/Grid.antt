-- ===== src/Grid.antt =====
-- The data grid (frontend/src/workbench/components/grid): its columns and its selection.
pub mod ColumnOrder
pub mod Reconciled
pub mod Reordered
pub mod Selection
pub mod Selected
pub mod Sizing
pub mod Dragged
