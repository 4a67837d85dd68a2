-- ===== src/Eventstoredb/AggregateStore.antt =====
-- internal/pkg/eventstroredb/aggregate_store.go: aggregates in the event store. Tracing, logging and
-- the reflection that makes an empty aggregate are left out: the empty aggregate is an argument.
pub mod Paging
pub mod Loading
pub mod Sending
pub mod Storing
use go_ecommerce_microservic.Common.{
  ℕ, zero, suc, Bool, true, false, Text, List, [], ◌∷◌, ◌++◌, ◌||◌, ◌==◌, ltb, Option, none, some,
  Outcome, ok, err, panic, bind, Action, pure, lift, wrap, length, ◌>>=◌, ◌>>◌, if◌then◌else◌,
}
use go_ecommerce_microservic.Common.Word64.{add64}
use go_ecommerce_microservic.EventSourcing.Error.{
  Error, Cause, Layer, with_layer, is_stream_not_found,
}
use go_ecommerce_microservic.EventSourcing.Event.{DomainEvent, StreamEvent}
use go_ecommerce_microservic.EventSourcing.Version
use go_ecommerce_microservic.EventSourcing.Aggregate.{
  EventSourcedAggregateRoot, WhenFunc, load_from_history, mark_uncommitted_event_as_committed,
}
use go_ecommerce_microservic.Eventstoredb.Client.{Client}
use go_ecommerce_microservic.Eventstoredb.StreamName.{for_id}
use go_ecommerce_microservic.Eventstoredb.Serializer.{
  Serializers, AppendEventsResult, domain_event_to_stream_event,
}
use go_ecommerce_microservic.Eventstoredb.EventStore.{read_events, append_events, stream_exists}

-- The server, and the aggregate that the caller holds.
pub record World (S P A : Type 0) : Type 0 where
  pub server : S
  pub aggregate : EventSourcedAggregateRoot P A

abbrev pub on_server : {S P A R : Type 0} → Action S Error R → Action (World S P A) Error R
on_server m w = let (r, s) = m w.server in (r, record w { server = s })

abbrev pub page_size : ℕ
page_size = 500

-- `appendResult.NoOp`
abbrev pub no_op : AppendEventsResult
no_op = record { global_position = 0; next_expected_version = 0 }

-- `Distinct` on pointers: those of events all differ, and a nil pointer is kept once.
abbrev pub distinct_pointers : {X : Type 0} → Bool → List (Option X) → List (Option X)
distinct_pointers seen [] = []
distinct_pointers seen (some x ∷ xs) = some x ∷ distinct_pointers seen xs
distinct_pointers true (none ∷ xs) = distinct_pointers true xs
distinct_pointers false (none ∷ xs) = none ∷ distinct_pointers true xs

-- The selector reads the fields of each pointer.
abbrev pub domain_events :
    {P M : Type 0} → List (Option (StreamEvent P M)) → Outcome Error (List (DomainEvent P))
domain_events [] = ok []
domain_events (none ∷ es) = panic
domain_events (some e ∷ es) = bind (domain_events es) λ ds. ok (e.event ∷ ds)

-- `esErrors.NewAggregateNotFoundError(err, id)`, where `err` may be nil
abbrev pub not_found : Option Error → Error
not_found none = record { layers = Layer.aggregate_not_found ∷ []; cause = Cause.nothing }
not_found (some e) = with_layer Layer.aggregate_not_found e

abbrev caused_by_missing_stream : Option Error → Bool
caused_by_missing_stream none = false
caused_by_missing_stream (some e) = is_stream_not_found e.cause

module _ {P M : Type 0} (z : Serializers P M) where
  -- The selector of `StoreWithVersion`; `new_id i` is what `uuid.NewV4` draws for the i-th event.
  unfoldable pub stream_events :
      (ℕ → ℕ) → M → ℕ → ℕ → List (DomainEvent P) → List (Option (StreamEvent P M))
  unfolding domain_event_to_stream_event
  stream_events new_id meta original i [] = []
  stream_events new_id meta original i (e ∷ es) =
      (if z.decode_fails e
        then none
        else some (domain_event_to_stream_event (new_id i) e meta (add64 i original)))
      ∷ stream_events new_id meta original (suc i) es

module _ {S P M : Type 0} (c : Client S) (z : Serializers P M) where
  -- `getStreamEvents`, on fuel for its loop: `none` means that the loop still runs.
  unfoldable pub get_stream_events :
      ℕ
      → Text
      → ℕ
      → List (Option (StreamEvent P M))
      → Action S Error (Option (List (Option (StreamEvent P M))))
  get_stream_events zero name position events = pure none
  get_stream_events (suc fuel) name position events = do
    page ← wrap (with_layer Layer.message) (read_events c z name position page_size)
    elim (ltb (length page) page_size) [
      | true ↦ pure (some (events ++ page))
      | false ↦ get_stream_events fuel name (add64 (length page) position) (events ++ page)
    ]

module _ {S P M : Type 0} (c : Client S) (z : Serializers P M) (uuid_string : ℕ → Text)
    (aggregate_name : Text) where
  unfoldable pub exists : ℕ → Action S Error Bool
  exists id = stream_exists c z (for_id uuid_string aggregate_name id)

  module _ {A : Type 0} (when : WhenFunc P A) (empty : EventSourcedAggregateRoot P A) where
    -- The end of `LoadWithReadPosition`, for the aggregate that was made for it.
    unfoldable pub replay :
        List (Option (StreamEvent P M)) → Outcome Error (EventSourcedAggregateRoot P A)
    replay events =
        bind (domain_events (distinct_pointers false events))
          λ history. let (r, a) = load_from_history when history empty in bind r λ _. ok a

    -- What follows `getStreamEvents`, for its error and its events.
    unfoldable pub after_read :
        Option Error
        → List (Option (StreamEvent P M))
        → Outcome Error (EventSourcedAggregateRoot P A)
    unfolding replay
    after_read error events =
        if caused_by_missing_stream error || length events == 0
        then err (with_layer Layer.message (not_found error))
        else elim error [ some e ↦ err (with_layer Layer.message e) | none ↦ replay events ]

    -- A result `none` means that reading the stream still runs.
    unfoldable pub load_with_read_position :
        ℕ → ℕ → ℕ → Action S Error (Option (EventSourcedAggregateRoot P A))
    unfolding after_read
    load_with_read_position fuel id position s =
        let (r, s') =
          get_stream_events c z fuel (for_id uuid_string aggregate_name id) position [] s in
        (
          elim r [
            | ok none ↦ ok none
            | ok (some events) ↦ bind (after_read none events) λ a. ok (some a)
            | err e ↦ bind (after_read (some e) []) λ a. ok (some a)
            | panic ↦ panic
          ],
          s',
        )

    unfoldable pub load : ℕ → ℕ → Action S Error (Option (EventSourcedAggregateRoot P A))
    unfolding load_with_read_position
    load fuel id = load_with_read_position fuel id Version.start

  module _ {A : Type 0} (new_id : ℕ → ℕ) (meta : M) where
    unfoldable pub store_with_version : ℕ → Action (World S P A) Error AppendEventsResult
    store_with_version expected w =
        if length w.aggregate.uncommitted_events == 0
        then (ok no_op, w)
        else (do
          result ← on_server (
              wrap (with_layer Layer.message) (
                append_events c z (for_id uuid_string aggregate_name w.aggregate.entity.id) expected
                  (stream_events z new_id meta w.aggregate.original_version 0
                    w.aggregate.uncommitted_events)))
          λ w'. (
            ok result,
            record w' { aggregate = mark_uncommitted_event_as_committed w'.aggregate },
          ))
            w

    unfoldable pub store : Action (World S P A) Error AppendEventsResult
    unfolding store_with_version
    store w = wrap (with_layer Layer.message) (store_with_version w.aggregate.original_version) w
