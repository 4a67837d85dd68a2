-- ===== src/Eventstoredb/Tests/Appends.antt =====
-- `AppendEvents` (internal/pkg/eventstroredb/event_store.go) with a serializer that always fails.
use go_ecommerce_microservic.Common.{ℕ, ◌≡◌, refl, text, [], ◌∷◌, some, inl, ok, err}
use go_ecommerce_microservic.EventSourcing.Error.{plain, external}
use go_ecommerce_microservic.EventSourcing.Version
use go_ecommerce_microservic.EventSourcing.Event.{StreamEvent}
use go_ecommerce_microservic.Eventstoredb.Client.{binary_content_type}
use go_ecommerce_microservic.Eventstoredb.Serializer.{
  Serializers, stream_event_to_event_data, expected_stream_version_to_esdb_expected_revision,
  esdb_write_result_to_append_event_result,
}
use go_ecommerce_microservic.Eventstoredb.EventStore.{append_events, events_data}
use go_ecommerce_microservic.Eventstoredb.EventStore.Appending.{append_events-unserializable}
use go_ecommerce_microservic.Eventstoredb.Tests.Memory.{memory, record_all, find}
use go_ecommerce_microservic.Eventstoredb.Tests.Counter.{numbers, added_event}

abbrev failing : Serializers ℕ (Unit {0})
failing = record numbers { serialize = λ e. inl 1 }

abbrev event : StreamEvent ℕ (Unit {0})
event = record { event_id = 1; version = 0; position = 0; event = added_event 1 4; metadata = tt }

unserializable : stream_event_to_event_data failing (some event) ≡ err (plain (external 1))
unfolding stream_event_to_event_data
unserializable = refl

-- The stream then holds one event without type or content.
append_events-unserializable_test :
    append_events memory failing (text "x") Version.no_stream (some event ∷ []) [] ≡ (
      ok (record { global_position = 1; next_expected_version = 1 }),
      (
        text "x",
        record_all (text "x") 0 (
            record {
              event_id = 0;
              event_type = [];
              content = [];
              metadata = [];
              content_type = binary_content_type;
            }
            ∷ []),
      )
          ∷ [],
    )
unfolding events_data find expected_stream_version_to_esdb_expected_revision
    esdb_write_result_to_append_event_result
append_events-unserializable_test =
    append_events-unserializable memory failing (text "x") Version.no_stream event [] []
      (plain (external 1)) [] unserializable refl
