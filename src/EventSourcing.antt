-- ===== src/EventSourcing.antt =====
-- internal/pkg/es and internal/pkg/core/domain: event-sourced aggregates, their versions and their
-- events.
pub mod Version
pub mod Error
pub mod Event
pub mod Aggregate
