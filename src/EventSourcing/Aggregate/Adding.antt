-- ===== src/EventSourcing/Aggregate/Adding.antt =====
-- The branches of `AddDomainEvents` (internal/pkg/es/models/event_sourced_aggregate.go).
use go_ecommerce_microservic.Common.{
  ◌≡◌, ◌≢◌, refl, Bool, true, false, Option, some, none, List, [], ◌∷◌, ◌++◌, arith, Outcome, ok,
  err, panic,
}
use go_ecommerce_microservic.Common.Word64.{add64}
use go_ecommerce_microservic.EventSourcing.Error.{Error, plain, event_already_exists}
use go_ecommerce_microservic.EventSourcing.Event.{DomainEvent, EventBase}
use go_ecommerce_microservic.EventSourcing.Aggregate.{
  EventSourcedAggregateRoot, exists_event, add_domain_events,
}

exists_event-ne-err :
    {P : Type 0} (e : DomainEvent P) (es : List (DomainEvent P)) (x : Error)
    → exists_event e es ≢ err x
unfolding exists_event
exists_event-ne-err e [] x h = cc
exists_event-ne-err e (f ∷ fs) x h = ground (arith, exists_event-ne-err e fs x)

module _ {P A : Type 0} where
  -- The event as `AddDomainEvents` stamps it, and the aggregate with it among the pending events.
  abbrev pub stamped : EventSourcedAggregateRoot P A → DomainEvent P → EventBase → DomainEvent P
  stamped a e b = record e {
    base = some (record b {
      aggregate_id = a.entity.id;
      aggregate_sequence_number = add64 a.current_version 1;
    });
  }

  abbrev pub with_pending :
      EventSourcedAggregateRoot P A → DomainEvent P → EventSourcedAggregateRoot P A
  with_pending a e = record a { uncommitted_events = a.uncommitted_events ++ (e ∷ []) }

  -- All branches of `AddDomainEvents`.
  pub data AddResult (e : DomainEvent P) (a : EventSourcedAggregateRoot P A) : Type 0 where
    added :
        (b : EventBase)
        → e.base ≡ some b
        → exists_event e a.uncommitted_events ≡ ok false
        → add_domain_events e a ≡ (ok (stamped a e b), with_pending a (stamped a e b))
        → AddResult e a
    refused :
        exists_event e a.uncommitted_events ≡ ok true
        → add_domain_events e a ≡ (err (plain event_already_exists), a)
        → AddResult e a
    crashed : add_domain_events e a ≡ (panic, a) → AddResult e a

  add_domain_events-result :
      (e : DomainEvent P) (a : EventSourcedAggregateRoot P A) (found : Outcome Error Bool)
      → exists_event e a.uncommitted_events ≡ found
      → (base : Option EventBase) → e.base ≡ base
      → AddResult e a
  unfolding add_domain_events
  add_domain_events-result e a (ok true) f base eb = refused f (rw f)
  add_domain_events-result e a (ok false) f (some b) eb = added b eb f (ground arith)
  add_domain_events-result e a (ok false) f none eb = crashed (ground arith)
  add_domain_events-result e a (err x) f base eb =
      absurd (exists_event-ne-err e a.uncommitted_events x f)
  add_domain_events-result e a panic f base eb = crashed (rw f)

  pub add_domain_events_cases :
      (e : DomainEvent P) (a : EventSourcedAggregateRoot P A) → AddResult e a
  add_domain_events_cases e a =
      add_domain_events-result e a (exists_event e a.uncommitted_events) refl e.base refl
