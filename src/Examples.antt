-- ===== src/Examples.antt =====
-- Concrete runs: each applies a theorem, or evaluates the code, on a small input.
mod Saves
mod Conditions
mod Retries
mod Services
mod Queries
mod Consumers
mod Coordination
mod Brokers
mod Identifiers
mod Locks
mod Projections
mod Paging
