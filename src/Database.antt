-- ===== src/Database.antt =====
-- frontend/src/workbench/types/database.ts: the data that the workbench's parts exchange.
pub mod Filters
pub mod Columns
pub mod Queries
pub mod Mutations
pub mod Ddl
pub mod Operators
