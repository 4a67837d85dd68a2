-- ===== src/Eventstoredb/EventStore.antt =====
-- internal/pkg/eventstroredb/event_store.go: the event store over the client. Tracing and logging
-- are left out.
pub mod Appending
use go_ecommerce_microservic.Common.{
  ℕ, ◌-◌, ◌^◌, Bool, true, Text, List, [], ◌∷◌, Option, none, some, Outcome, ok, err, bind, map_err,
  Action, pure, lift, wrap, ◌>>=◌, ◌>>◌,
}
use go_ecommerce_microservic.EventSourcing.Error.{
  ClientError, Error, Cause, Layer, plain, with_layer,
}
use go_ecommerce_microservic.EventSourcing.Event.{StreamEvent}
use go_ecommerce_microservic.EventSourcing.Version
use go_ecommerce_microservic.Eventstoredb.Client.{
  Client, EventData, StreamPosition, Direction, forwards, backwards,
}
use go_ecommerce_microservic.Eventstoredb.Serializer.{
  Serializers, AppendEventsResult, stream_event_to_event_data,
  expected_stream_version_to_esdb_expected_revision, stream_read_position_to_stream_position,
  esdb_read_stream_to_resolved_events, esdb_write_result_to_append_event_result,
  resolved_events_to_stream_events,
}

-- `errors.WithMessage(esErrors.NewReadStreamError(err), ...)` and its like
abbrev pub client_error : Layer → ClientError → Error
client_error l e = with_layer Layer.message (with_layer l (plain (Cause.client e)))

module _ {S P M : Type 0} (c : Client S) (z : Serializers P M) where
  unfoldable pub stream_exists : Text → Action S Error Bool
  stream_exists name = do
    wrap (client_error Layer.read_stream) (c.read_stream name backwards StreamPosition.end 1)
    pure true

  -- An event that cannot be serialized is sent as the zero value of `esdb.EventData`.
  abbrev pub data_or_zero : Outcome Error EventData → Outcome Error EventData
  data_or_zero (err e) = ok (record {
    event_id = 0;
    event_type = [];
    content = [];
    metadata = [];
    content_type = c.zero_content_type;
  })
  data_or_zero r = r

  unfoldable pub events_data : List (Option (StreamEvent P M)) → Outcome Error (List EventData)
  unfolding stream_event_to_event_data
  events_data [] = ok []
  events_data (e ∷ es) =
      bind (data_or_zero (stream_event_to_event_data z e))
        λ d. bind (events_data es) λ ds. ok (d ∷ ds)

  unfoldable pub append_events :
      Text → ℕ → List (Option (StreamEvent P M)) → Action S Error AppendEventsResult
  unfolding expected_stream_version_to_esdb_expected_revision
      esdb_write_result_to_append_event_result
  append_events name expected events = do
    sent ← lift (events_data events)
    result ←
        wrap (client_error Layer.append_to_stream) (
          c.append_to_stream name (expected_stream_version_to_esdb_expected_revision expected) sent)
    pure (esdb_write_result_to_append_event_result result)

  unfoldable pub append_new_events :
      Text → List (Option (StreamEvent P M)) → Action S Error AppendEventsResult
  append_new_events name events =
      wrap (λ e. with_layer Layer.message (with_layer Layer.append_to_stream e))
        (append_events name Version.no_stream events)

  -- The part that `ReadEvents` and `ReadEventsBackwards` share.
  unfoldable pub read_in_direction :
      Direction → Text → ℕ → ℕ → Action S Error (List (Option (StreamEvent P M)))
  unfolding stream_read_position_to_stream_position esdb_read_stream_to_resolved_events
      resolved_events_to_stream_events
  read_in_direction direction name position count = do
    stream ←
        wrap (client_error Layer.read_stream)
          (c.read_stream name direction (stream_read_position_to_stream_position position) count)
    resolved ←
        lift (map_err (with_layer Layer.message) (esdb_read_stream_to_resolved_events stream))
    pure (resolved_events_to_stream_events z resolved)

  unfoldable pub read_events : Text → ℕ → ℕ → Action S Error (List (Option (StreamEvent P M)))
  unfolding read_in_direction
  read_events = read_in_direction forwards

  unfoldable pub read_events_with_max_count :
      Text → ℕ → Action S Error (List (Option (StreamEvent P M)))
  unfolding read_events
  read_events_with_max_count name position = read_events name position (2 ^ 64 - 1)

  unfoldable pub read_events_from_start :
      Text → ℕ → Action S Error (List (Option (StreamEvent P M)))
  unfolding read_events
  read_events_from_start name count = read_events name Version.start count

  unfoldable pub read_events_backwards :
      Text → ℕ → ℕ → Action S Error (List (Option (StreamEvent P M)))
  unfolding read_in_direction
  read_events_backwards = read_in_direction backwards

  unfoldable pub read_events_backwards_with_max_count :
      Text → ℕ → Action S Error (List (Option (StreamEvent P M)))
  unfolding read_events_backwards
  read_events_backwards_with_max_count name position =
      read_events_backwards name position (2 ^ 64 - 1)

  unfoldable pub read_events_backwards_from_end :
      Text → ℕ → Action S Error (List (Option (StreamEvent P M)))
  unfolding read_events_backwards
  read_events_backwards_from_end name count = read_events_backwards name Version.end count

module _ {S : Type 0} (c : Client S) where
  unfoldable pub truncate_stream : Text → ℕ → ℕ → Action S Error AppendEventsResult
  unfolding expected_stream_version_to_esdb_expected_revision
      esdb_write_result_to_append_event_result
  truncate_stream name position expected = do
    result ← wrap (client_error Layer.truncate_stream) (
        c.set_stream_metadata name (expected_stream_version_to_esdb_expected_revision expected)
          (record { max_count = none; truncate_before = some position }))
    pure (esdb_write_result_to_append_event_result result)

  unfoldable pub delete_stream : Text → ℕ → Action S Error (Unit {0})
  unfolding expected_stream_version_to_esdb_expected_revision
  delete_stream name expected =
      wrap (client_error Layer.delete_stream)
        (c.delete_stream name (expected_stream_version_to_esdb_expected_revision expected))
