-- ===== src/Eventstoredb/Tests.antt =====
-- Runs and instances of the theorems about internal/pkg/eventstroredb and internal/pkg/es, on a server
-- in memory.
pub mod Memory
pub mod Counter
mod Aggregates
mod Stores
mod Subscriptions
mod Appends
