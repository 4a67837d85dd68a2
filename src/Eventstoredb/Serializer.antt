-- ===== src/Eventstoredb/Serializer.antt =====
-- internal/pkg/eventstroredb/esdb_serilizer.go: between the aggregates' events and those of the
-- EventStoreDB client. The JSON serializers and the reflection on event types are an interface of
-- the source (internal/pkg/core/serializer), and a parameter. A uuid keeps its value on the way from
-- one uuid package to the other.
use go_ecommerce_microservic.Common.{
  ℕ, Bool, false, Text, text, text_eq, List, [], ◌∷◌, Option, none, some, ◌⊎◌, inl, inr, ◌==◌,
  if◌then◌else◌, Outcome, ok, err, panic, bind,
}
use go_ecommerce_microservic.EventSourcing.Error.{
  Error, Cause, Layer, plain, with_layer, is_stream_not_found, is_end_of_file,
}
use go_ecommerce_microservic.EventSourcing.Event.{DomainEvent, StreamEvent}
use go_ecommerce_microservic.EventSourcing.Version.{
  is_no_stream, is_any, is_stream_exists, is_end, is_start,
}
use go_ecommerce_microservic.Eventstoredb.Client.{
  ContentType, json_content_type, binary_content_type, EventData, ExpectedRevision, StreamPosition,
  ResolvedEvent, ReadStream, WriteResult,
}

-- internal/pkg/es/models/append_result/append_event_result.go
pub record AppendEventsResult : Type 0 where
  pub global_position : ℕ
  pub next_expected_version : ℕ

-- An implementation gives a value, or an error by its number.
pub record Serializers (P M : Type 0) : Type 0 where
  -- the bytes and the content type
  pub serialize : DomainEvent P → ℕ ⊎ (List ℕ × Text)
  -- from the bytes, the event type and the content type
  pub deserialize : List ℕ → Text → Text → ℕ ⊎ DomainEvent P
  pub serialize_metadata : M → ℕ ⊎ List ℕ
  pub deserialize_metadata : List ℕ → ℕ ⊎ M
  pub get_type_name : DomainEvent P → Text
  -- whether `DecodeWithMapStructure` of the event fails
  pub decode_fails : DomainEvent P → Bool

-- A Go call that gives an error of a serializer.
abbrev pub returned : {A : Type 0} → ℕ ⊎ A → Outcome Error A
returned (inl n) = err (plain (Cause.external n))
returned (inr a) = ok a

-- `strings.HasPrefix(item.Event.EventType, "$")`
abbrev pub is_system_type : Text → Bool
is_system_type [] = false
is_system_type (c ∷ cs) = c == b'$'

-- The `switch` on the serializer's content type.
abbrev pub content_type_of : Text → ContentType
content_type_of t =
    if text_eq t (text "application/json") then json_content_type else binary_content_type

unfoldable pub expected_stream_version_to_esdb_expected_revision : ℕ → ExpectedRevision
expected_stream_version_to_esdb_expected_revision expected =
    if is_no_stream expected
    then ExpectedRevision.no_stream
    else if is_any expected
    then ExpectedRevision.any
    else if is_stream_exists expected
    then ExpectedRevision.stream_exists
    else ExpectedRevision.stream_revision expected

-- Every position but the start and the end becomes revision 1.
unfoldable pub stream_read_position_to_stream_position : ℕ → StreamPosition
stream_read_position_to_stream_position position =
    if is_end position
    then StreamPosition.end
    else if is_start position
    then StreamPosition.start
    else StreamPosition.revision 1

-- `Recv` until it fails. Beside "stream not found" the event is nil, and its stream's id is read.
unfoldable pub esdb_read_stream_to_resolved_events : ReadStream → Outcome Error (List ResolvedEvent)
esdb_read_stream_to_resolved_events stream =
    let ended = Cause.client stream.last in
    if is_stream_not_found ended
    then panic
    else if is_end_of_file ended
    then ok stream.events
    else err (with_layer Layer.read_stream (plain ended))

unfoldable pub esdb_write_result_to_append_event_result : WriteResult → AppendEventsResult
esdb_write_result_to_append_event_result r = record {
  global_position = r.commit_position;
  next_expected_version = r.next_expected_version;
}

module _ {P M : Type 0} (z : Serializers P M) where
  -- A nil stream event is dereferenced.
  unfoldable pub stream_event_to_event_data : Option (StreamEvent P M) → Outcome Error EventData
  stream_event_to_event_data none = panic
  stream_event_to_event_data (some e) = bind (returned (z.serialize e.event)) λ r.
      bind (returned (z.serialize_metadata e.metadata)) λ m. ok (record {
        event_id = e.event_id;
        event_type = z.get_type_name e.event;
        content = r.0;
        metadata = m;
        content_type = content_type_of r.1;
      })

  unfoldable pub resolved_event_to_stream_event : ResolvedEvent → Outcome Error (StreamEvent P M)
  resolved_event_to_stream_event r =
      bind (returned (z.deserialize r.event.content r.event.event_type r.event.content_type)) λ e.
        bind (returned (z.deserialize_metadata r.event.user_metadata)) λ m. ok (record {
          event_id = r.event.event_id;
          version = r.event.event_number;
          position = r.original_event.commit_position;
          event = e;
          metadata = m;
        })

  -- The event, or nil if it cannot be decoded.
  abbrev pub event_or_nil : Outcome Error (StreamEvent P M) → Option (StreamEvent P M)
  event_or_nil (ok e) = some e
  event_or_nil _ = none

  -- System events are dropped; events that cannot be decoded become nil pointers.
  unfoldable pub resolved_events_to_stream_events :
      List ResolvedEvent → List (Option (StreamEvent P M))
  unfolding resolved_event_to_stream_event
  resolved_events_to_stream_events [] = []
  resolved_events_to_stream_events (r ∷ rs) =
      let rest = resolved_events_to_stream_events rs in
      if is_system_type r.event.event_type
      then rest
      else event_or_nil (resolved_event_to_stream_event r) ∷ rest

-- `new_id` is what `uuid.NewV4` draws.
unfoldable pub domain_event_to_stream_event :
    {P M : Type 0} → ℕ → DomainEvent P → M → ℕ → StreamEvent P M
domain_event_to_stream_event new_id e m position = record {
  event_id = new_id;
  version = position;
  position = position;
  event = e;
  metadata = m;
}
