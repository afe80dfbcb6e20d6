-- ===== src/Examples.antt =====
-- The theorems at concrete inputs.
pub mod Data
pub mod PostgresTests
pub mod MysqlTests
pub mod TabBar
pub mod QueueRuns
pub mod TableRuns
pub mod GridRuns
pub mod Moves
pub mod BackendRuns
pub mod GridActions
pub mod FormRuns
pub mod CatalogRuns
pub mod FetchRuns
pub mod EditingRuns
pub mod DetailsRuns
