-- ===== src/EventSourcing/Aggregate.antt =====
-- internal/pkg/es/models/event_sourced_aggregate.go: the base of event-sourced aggregates. The
-- fields of the aggregate that embeds the base are `state`; its `When` method, which the base holds
-- as a closure over the whole aggregate, is an action on the record and a parameter.
pub mod Frame
pub mod Adding
pub mod Loading
pub mod Pending
use go_ecommerce_microservic.Common.{
  ℕ, Text, Bool, true, false, Option, none, some, List, [], ◌∷◌, ◌++◌, ◌||◌, ◌==◌, not,
  if◌then◌else◌, ltb, length, Outcome, ok, err, panic, bind, Action, pure, lift, wrap, ◌>>=◌, ◌>>◌,
}
use go_ecommerce_microservic.Common.Word64.{add64}
use go_ecommerce_microservic.EventSourcing.Version.{no_stream}
use go_ecommerce_microservic.EventSourcing.Error.{
  Error, plain, with_layer, message, event_already_exists,
}
use go_ecommerce_microservic.EventSourcing.Event.{DomainEvent, Entity, get_event_id, with_aggregate}

pub record EventSourcedAggregateRoot (P A : Type 0) : Type 0 where
  pub entity : Entity
  pub original_version : ℕ
  pub current_version : ℕ
  pub uncommitted_events : List (DomainEvent P)
  pub state : A

abbrev pub RootAction : Type 0 → Type 0 → Type 0 → Type 0
RootAction P A R = Action (EventSourcedAggregateRoot P A) Error R

abbrev pub WhenFunc : Type 0 → Type 0 → Type 0
WhenFunc P A = DomainEvent P → RootAction P A (Unit {0})

-- The query of `AddDomainEvents`: some pending event has the id of the given one.
unfoldable pub exists_event :
    {P : Type 0} → DomainEvent P → List (DomainEvent P) → Outcome Error Bool
exists_event event [] = ok false
exists_event event (e ∷ es) = bind (get_event_id e) λ mine.
    bind (get_event_id event) λ other. if mine == other then ok true else exists_event event es

module _ {P A : Type 0} where
  -- `NewEventSourcedAggregateRootWithId`; `NewEventSourcedAggregateRoot` leaves the id zero. A nil
  -- `when` gives a nil aggregate.
  unfoldable pub new_event_sourced_aggregate_root_with_id :
      ℕ → Text → ℕ → A → Option (WhenFunc P A) → Option (EventSourcedAggregateRoot P A)
  new_event_sourced_aggregate_root_with_id id aggregate_type now state none = none
  new_event_sourced_aggregate_root_with_id id aggregate_type now state (some when) = some (record {
    entity = record { id = id; entity_type = aggregate_type; created_at = now; updated_at = 0 };
    original_version = no_stream;
    current_version = no_stream;
    uncommitted_events = [];
    state = state;
  })

  unfoldable pub new_event_sourced_aggregate_root :
      Text → ℕ → A → Option (WhenFunc P A) → Option (EventSourcedAggregateRoot P A)
  unfolding new_event_sourced_aggregate_root_with_id
  new_event_sourced_aggregate_root = new_event_sourced_aggregate_root_with_id 0

  abbrev pub set_id : ℕ → EventSourcedAggregateRoot P A → EventSourcedAggregateRoot P A
  set_id id a = record a { entity = record a.entity { id = id } }

  -- The event is stamped in place, so the stamped event is handed back too.
  unfoldable pub add_domain_events : DomainEvent P → RootAction P A (DomainEvent P)
  add_domain_events event a =
      (do
        exists ← lift (exists_event event a.uncommitted_events)
        if exists then lift (err (plain event_already_exists)) else do
          stamped ← lift (with_aggregate a.entity.id (add64 a.current_version 1) event)
          λ s. (
            ok stamped,
            record s { uncommitted_events = s.uncommitted_events ++ (stamped ∷ []) },
          ))
        a

  unfoldable pub mark_uncommitted_event_as_committed :
      EventSourcedAggregateRoot P A → EventSourcedAggregateRoot P A
  mark_uncommitted_event_as_committed a = record a { uncommitted_events = [] }

  unfoldable pub has_uncommitted_events : EventSourcedAggregateRoot P A → Bool
  has_uncommitted_events a = ltb 0 (length a.uncommitted_events)

  unfoldable pub set_original_version :
      ℕ → EventSourcedAggregateRoot P A → EventSourcedAggregateRoot P A
  set_original_version version a = record a { original_version = version }

module _ {P A : Type 0} (when : WhenFunc P A) where
  -- `Apply`, which hands the event back as `AddDomainEvents` stamped it.
  unfoldable pub apply : DomainEvent P → Bool → RootAction P A (DomainEvent P)
  apply event is_new = do
    event' ← (if is_new then wrap (with_layer message) (add_domain_events event) else pure event)
    wrap (with_layer message) (when event')
    λ a. (ok event', record a { current_version = add64 a.current_version 1 })

  unfoldable pub fold : DomainEvent P → RootAction P A (Unit {0})
  fold event = do
    wrap (with_layer message) (when event)
    λ a. (
      ok tt,
      record a {
        original_version = add64 a.original_version 1;
        current_version = add64 a.current_version 1;
      },
    )

  unfoldable pub load_from_history : List (DomainEvent P) → RootAction P A (Unit {0})
  unfolding fold
  load_from_history [] = pure tt
  load_from_history (event ∷ events) = do
    wrap (with_layer message) (fold event)
    load_from_history events
