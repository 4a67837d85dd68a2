-- ===== src/EventSourcing/Event.antt =====
-- internal/pkg/core/domain/domain_event.go, entity.go, core/events/event.go and
-- internal/pkg/es/models/stream_event.go. A uuid is its 128-bit number, a time its nanoseconds since
-- Go's zero time. The fields that an event type adds of its own are its payload, a parameter `P`.
use go_ecommerce_microservic.Common.{ℕ, Text, Option, none, some, Outcome, ok, panic}
use go_ecommerce_microservic.EventSourcing.Error.{Error}
use go_ecommerce_microservic.EventSourcing.Version.{no_stream}

-- `domain.DomainEvent` with the `events.Event` inside it
pub record EventBase : Type 0 where
  pub event_id : ℕ
  pub event_type : Text
  pub occurred_on : ℕ
  pub aggregate_id : ℕ
  pub aggregate_sequence_number : ℕ

-- An event embeds a pointer to its `DomainEvent`, which is nil until a constructor sets it.
pub record DomainEvent (P : Type 0) : Type 0 where
  pub base : Option EventBase
  pub payload : P

-- `NewDomainEvent`: `id` and `now` are what the second `NewEvent` call draws; it replaces the first.
unfoldable pub new_domain_event : ℕ → ℕ → Text → EventBase
new_domain_event id now event_type = record {
  event_id = id;
  event_type = event_type;
  occurred_on = now;
  aggregate_id = 0;
  aggregate_sequence_number = no_stream;
}

module _ {P : Type 0} where
  -- The promoted methods dereference the embedded pointer.
  abbrev pub get_event_id : DomainEvent P → Outcome Error ℕ
  get_event_id e = elim e.base [ none ↦ panic | some b ↦ ok b.event_id ]

  abbrev pub get_aggregate_id : DomainEvent P → Outcome Error ℕ
  get_aggregate_id e = elim e.base [ none ↦ panic | some b ↦ ok b.aggregate_id ]

  abbrev pub with_aggregate : ℕ → ℕ → DomainEvent P → Outcome Error (DomainEvent P)
  with_aggregate id number e = elim e.base [
    | none ↦ panic
    | some b ↦ ok (record e {
      base = some (record b { aggregate_id = id; aggregate_sequence_number = number });
    })
  ]

pub record Entity : Type 0 where
  pub id : ℕ
  pub entity_type : Text
  pub created_at : ℕ
  pub updated_at : ℕ

-- `metadata.Metadata`, nil where there is none; its entries are not looked at by these packages.
pub record StreamEvent (P M : Type 0) : Type 0 where
  pub event_id : ℕ
  pub version : ℕ
  pub position : ℕ
  pub event : DomainEvent P
  pub metadata : M
