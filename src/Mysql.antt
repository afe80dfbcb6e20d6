-- ===== src/Mysql.antt =====
-- The MySQL statement builders (frontend/src/workbench/lib/databases/mysql).
pub mod Quote
pub mod Query
pub mod QueryReads
pub mod Rows
pub mod Ddl
pub mod DdlNames
pub mod Introspection
