-- ===== src/Persistence.antt =====
-- src/logicblocks/event/persistence: statements for a PostgreSQL server with their parameters, and the
-- paging of results in memory.
pub mod Sql
pub mod Queries
pub mod Paging
