-- ===== src/Store.antt =====
-- The event store of src/logicblocks/event/store: write conditions, the in-memory database and the
-- storage adapter over it.
pub mod Conditions
pub mod Enforcers
pub mod Db
pub mod Texts
pub mod Adapter
pub mod EventStream
pub mod EventCategory
pub mod EventLog
pub mod EventStore
pub mod Transactions
