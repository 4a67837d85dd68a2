-- ===== src/Eventstoredb/AggregateStore/Sending.antt =====
-- What an aggregate's pending events become on their way to a stream and back
-- (internal/pkg/eventstroredb/aggregate_store.go, event_store.go and esdb_serilizer.go).
use go_ecommerce_microservic.Common.{
  ℕ, suc, ap, ◌≡◌, refl, false, text, text_eq, List, [], ◌∷◌, map, some, inr, ok, arith, length,
}
use go_ecommerce_microservic.EventSourcing.Event.{DomainEvent, StreamEvent}
use go_ecommerce_microservic.Eventstoredb.Client.{
  Client, EventData, json_content_type, ResolvedEvent, AreRecorded,
}
use go_ecommerce_microservic.Eventstoredb.Serializer.{
  Serializers, is_system_type, resolved_events_to_stream_events,
}
use go_ecommerce_microservic.Eventstoredb.EventStore.{events_data}
use go_ecommerce_microservic.Eventstoredb.AggregateStore.{stream_events}

-- The serializers write JSON, read back what they wrote, and give no event a system event's type.
pub record IsFaithful {P M : Type 0} (z : Serializers P M) (bytes : DomainEvent P → List ℕ)
    (meta : M) (meta_bytes : List ℕ) : Type 0 where
  pub decodes : (e : DomainEvent P) → z.decode_fails e ≡ false
  pub user_type : (e : DomainEvent P) → is_system_type (z.get_type_name e) ≡ false
  pub serialized : (e : DomainEvent P) → z.serialize e ≡ inr (bytes e, text "application/json")
  pub deserialized :
      (e : DomainEvent P)
      → z.deserialize (bytes e) (z.get_type_name e) (text "application/json") ≡ inr e
  pub meta_serialized : z.serialize_metadata meta ≡ inr meta_bytes
  pub meta_deserialized : z.deserialize_metadata meta_bytes ≡ inr meta

module _ {P M : Type 0} (z : Serializers P M) (bytes : DomainEvent P → List ℕ) (meta : M)
    (meta_bytes : List ℕ) (faithful : IsFaithful z bytes meta meta_bytes) where
  abbrev pub sent : (ℕ → ℕ) → ℕ → List (DomainEvent P) → List EventData
  sent new_id i [] = []
  sent new_id i (e ∷ es) =
      record {
        event_id = new_id i;
        event_type = z.get_type_name e;
        content = bytes e;
        metadata = meta_bytes;
        content_type = json_content_type;
      }
      ∷ sent new_id (suc i) es

  pub events_data-stream_events :
      {S : Type 0} (c : Client S) (new_id : ℕ → ℕ) (original i : ℕ) (es : List (DomainEvent P))
      → events_data c z (stream_events z new_id meta original i es) ≡ ok (sent new_id i es)
  unfolding events_data stream_events text_eq
  events_data-stream_events c new_id original i [] = refl
  events_data-stream_events c new_id original i (e ∷ es) =
      rw (faithful.decodes e, faithful.serialized e, faithful.meta_serialized)
        (rw (events_data-stream_events c new_id original (suc i) es))

  -- The stream events that the records of the sent events are read as.
  pub resolved-sent :
      (new_id : ℕ → ℕ) (i : ℕ) (es : List (DomainEvent P)) (rs : List ResolvedEvent)
      → AreRecorded (sent new_id i es) rs
      → (ds : List (StreamEvent P M)) × (resolved_events_to_stream_events z rs ≡ map some ds)
        × (map (λ d. d.event) ds ≡ es)
        × (length rs ≡ length es)
  unfolding resolved_events_to_stream_events
  resolved-sent new_id i [] [] h = ([], refl, refl, refl)
  resolved-sent new_id i [] (r ∷ rs) h = elim h [ ]
  resolved-sent new_id i (e ∷ es) [] h = elim h [ ]
  resolved-sent new_id i (e ∷ es) (r ∷ rs) (h, hs) =
      let (ds, same, back, n) = resolved-sent new_id (suc i) es rs hs in
      (
        record {
          event_id = r.event.event_id;
          version = r.event.event_number;
          position = r.original_event.commit_position;
          event = e;
          metadata = meta;
        }
            ∷ ds,
        ground (
          arith,
          faithful.user_type e,
          faithful.deserialized e,
          faithful.meta_deserialized,
          h.as_json refl,
          same,
        ),
        ap (λ l. e ∷ l) back,
        ap suc n,
      )
