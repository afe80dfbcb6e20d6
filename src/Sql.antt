-- ===== src/Sql.antt =====
-- What the two dialects share: how a server cuts a statement into quoted and unquoted text, and the
-- rules by which a statement built from quoted pieces is read back.
pub mod Lexer
pub mod Reads
pub mod Quoter
pub mod Doubling
pub mod Joined
pub mod Phrases
pub mod QueryTokens
pub mod ClauseReads
pub mod QueryReads
pub mod Growth
pub mod Clauses
pub mod Rows
pub mod Columns
pub mod Names
pub mod ColumnNames
pub mod RowTokens
pub mod RowReads
