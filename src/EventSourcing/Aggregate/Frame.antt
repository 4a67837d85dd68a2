-- ===== src/EventSourcing/Aggregate/Frame.antt =====
-- What an aggregate's `When` method leaves alone (internal/pkg/es/models/event_sourced_aggregate.go):
-- it sets the aggregate's own fields, and may set the id to that of the event.
use go_ecommerce_microservic.Common.{◌≡◌, some}
use go_ecommerce_microservic.EventSourcing.Event.{DomainEvent, EventBase}
use go_ecommerce_microservic.EventSourcing.Aggregate.{EventSourcedAggregateRoot, WhenFunc}

pub record IsFramed {P A : Type 0} (when : WhenFunc P A) : Type 0 where
  pub original :
      (e : DomainEvent P) (a : EventSourcedAggregateRoot P A)
      → (when e a).1.original_version ≡ a.original_version
  pub current :
      (e : DomainEvent P) (a : EventSourcedAggregateRoot P A)
      → (when e a).1.current_version ≡ a.current_version
  pub uncommitted :
      (e : DomainEvent P) (a : EventSourcedAggregateRoot P A)
      → (when e a).1.uncommitted_events ≡ a.uncommitted_events
  pub id :
      (e : DomainEvent P) (a : EventSourcedAggregateRoot P A) (b : EventBase)
      → e.base ≡ some b
      → b.aggregate_id ≡ a.entity.id
      → (when e a).1.entity.id ≡ a.entity.id
