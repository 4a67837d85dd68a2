-- ===== src/EventSourcing/Aggregate/Loading.antt =====
-- Versions after a replay (internal/pkg/es/models/event_sourced_aggregate.go, `LoadFromHistory`).
use go_ecommerce_microservic.Common.{◌<◌, ◌≡◌, refl, List, [], ◌∷◌, ◌++◌, arith, length, ok, ◌>>◌}
use go_ecommerce_microservic.Common.Word64.{modulus, add64}
use go_ecommerce_microservic.EventSourcing.Event.{DomainEvent}
use go_ecommerce_microservic.EventSourcing.Aggregate.{
  EventSourcedAggregateRoot, WhenFunc, load_from_history, fold,
}
use go_ecommerce_microservic.EventSourcing.Aggregate.Frame.{IsFramed}

module _ {P A : Type 0} (when : WhenFunc P A) (framed : IsFramed when) where
  after_fold : DomainEvent P → EventSourcedAggregateRoot P A → EventSourcedAggregateRoot P A
  after_fold e a = (fold when e a).1

  -- If `When` leaves the base of the aggregate alone and every event of the history is accepted,
  -- both versions, which are 64-bit, go up by the number of events, in 64-bit arithmetic, and no
  -- event becomes pending.
  pub load_from_history-versions :
      (events : List (DomainEvent P)) (a : EventSourcedAggregateRoot P A)
      → a.original_version < modulus
      → a.current_version < modulus
      → (load_from_history when events a).0 ≡ ok tt
      → ((load_from_history when events a).1.original_version
          ≡ add64 a.original_version (length events))
        × ((load_from_history when events a).1.current_version
            ≡ add64 a.current_version (length events))
        × ((load_from_history when events a).1.uncommitted_events ≡ a.uncommitted_events)
  unfolding load_from_history after_fold
  load_from_history-versions [] a o c h = (omega arith, omega arith, refl)
  load_from_history-versions (e ∷ es) a o c h = ground (
    arith,
    framed.original e a,
    framed.current e a,
    framed.uncommitted e a,
    load_from_history-versions es (after_fold e a),
  )

module _ {P A : Type 0} (when : WhenFunc P A) where
  step : DomainEvent P → EventSourcedAggregateRoot P A → EventSourcedAggregateRoot P A
  step e a = (fold when e a).1

  -- Replaying a history in two parts is replaying it at once: the second part is read exactly if
  -- the first was accepted, and the outcome and the aggregate are the same.
  pub load_from_history-append :
      (xs ys : List (DomainEvent P)) (a : EventSourcedAggregateRoot P A)
      → load_from_history when (xs ++ ys) a
        ≡ (do load_from_history when xs; load_from_history when ys) a
  unfolding load_from_history step
  load_from_history-append [] ys a = refl
  load_from_history-append (e ∷ es) ys a = ground (arith, load_from_history-append es ys (step e a))
