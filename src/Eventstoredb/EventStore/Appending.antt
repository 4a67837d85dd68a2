-- ===== src/Eventstoredb/EventStore/Appending.antt =====
-- `AppendEvents` (internal/pkg/eventstroredb/event_store.go) on an event that cannot be serialized.
use go_ecommerce_microservic.Common.{
  ℕ, ◌≡◌, arith, Text, List, [], ◌∷◌, Option, some, ok, err, panic,
}
use go_ecommerce_microservic.EventSourcing.Error.{Error, Layer}
use go_ecommerce_microservic.EventSourcing.Event.{StreamEvent}
use go_ecommerce_microservic.Eventstoredb.Client.{Client, EventData}
use go_ecommerce_microservic.Eventstoredb.Serializer.{
  Serializers, stream_event_to_event_data, expected_stream_version_to_esdb_expected_revision,
  esdb_write_result_to_append_event_result,
}
use go_ecommerce_microservic.Eventstoredb.EventStore.{append_events, events_data, client_error}

-- An event that cannot be serialized is no error of `AppendEvents`: the zero value of `esdb.EventData`
-- is sent in its place, before the data of the other events, and what the server answers is the result.
pub append_events-unserializable :
    {S P M : Type 0} (c : Client S) (z : Serializers P M) (name : Text) (expected : ℕ)
    (e : StreamEvent P M) (es : List (Option (StreamEvent P M))) (ds : List EventData) (x : Error)
    (s : S)
    → stream_event_to_event_data z (some e) ≡ err x
    → events_data c z es ≡ ok ds
    → let (r, s') =
        c.append_to_stream name
          (expected_stream_version_to_esdb_expected_revision expected)
          (record {
            event_id = 0;
            event_type = [];
            content = [];
            metadata = [];
            content_type = c.zero_content_type;
          }
            ∷ ds)
          s in
      append_events c z name expected (some e ∷ es) s ≡ (
        (elim r [
          | ok w ↦ ok (esdb_write_result_to_append_event_result w)
          | err y ↦ err (client_error Layer.append_to_stream y)
          | panic ↦ panic
        ]),
        s',
      )
unfolding append_events events_data
append_events-unserializable c z name expected e es ds x s h k = ground arith
