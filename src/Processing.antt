-- ===== src/Processing.antt =====
-- src/logicblocks/event/processing: processes, and the broker that shares event sources among
-- subscribers.
pub mod Locks
pub mod Status
pub mod Subscriptions
pub mod Subscribers
pub mod Difference
pub mod Coordinator
pub mod Consumers
pub mod ErrorHandling
