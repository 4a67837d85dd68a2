-- ===== src/Eventstoredb.antt =====
-- internal/pkg/eventstroredb and internal/pkg/es: the event store on EventStoreDB.
pub mod Client
pub mod StreamName
pub mod Serializer
pub mod EventStore
pub mod AggregateStore
pub mod Checkpoint
pub mod Subscription
pub mod Tests
