-- ===== src/Postgres.antt =====
-- The PostgreSQL statement builders (frontend/src/workbench/lib/databases/postgres).
pub mod Quote
pub mod Query
pub mod QueryReads
pub mod Rows
pub mod Ddl
pub mod DdlNames
pub mod DdlReads
pub mod Patterns
pub mod Introspection
