-- ===== src/Eventstoredb/Tests/Aggregates.antt =====
-- Runs of internal/pkg/es/models/event_sourced_aggregate.go and stream_name.go, and the theorems about
-- them at one input.
use go_ecommerce_microservic.Common.{
  ℕ, zero, suc, ap, ◌≡◌, refl, true, some, Text, text, List, [], ◌∷◌, ◌++◌, err, arith, length,
  ◌>>◌,
}
use go_ecommerce_microservic.Common.Word64.{add64}
use go_ecommerce_microservic.EventSourcing.Error.{
  plain, with_layer, message, event_already_exists, invalid_event_type,
}
use go_ecommerce_microservic.EventSourcing.Event.{EventBase}
use go_ecommerce_microservic.EventSourcing.Aggregate.{
  apply, load_from_history, exists_event, add_domain_events,
}
use go_ecommerce_microservic.EventSourcing.Aggregate.Loading.{
  load_from_history-versions, load_from_history-append,
}
use go_ecommerce_microservic.EventSourcing.Aggregate.Adding.{stamped}
use go_ecommerce_microservic.EventSourcing.Aggregate.Pending.{
  IsNumbered, apply-IsNumbered, apply-refused, apply-duplicate,
}
use go_ecommerce_microservic.Eventstoredb.StreamName.{for_id, get_id, get_id-for_id}
use go_ecommerce_microservic.Eventstoredb.Tests.Counter.{
  Added, Total, when_added, when_added-IsFramed, empty_total, added_event,
}

abbrev history : List Added
history = added_event 1 10 ∷ added_event 2 20 ∷ added_event 3 30 ∷ []

loaded : (load_from_history when_added history empty_total).1.state ≡ 60
unfolding load_from_history
loaded = refl

load_from_history-versions_example :
    ((load_from_history when_added history empty_total).1.original_version
      ≡ add64 empty_total.original_version (length history))
    × ((load_from_history when_added history empty_total).1.current_version
        ≡ add64 empty_total.current_version (length history))
    × ((load_from_history when_added history empty_total).1.uncommitted_events ≡ [])
unfolding load_from_history
load_from_history-versions_example =
    load_from_history-versions when_added when_added-IsFramed history empty_total (omega arith)
      (omega arith) refl

load_from_history-append_test :
    load_from_history when_added (history ++ (added_event 4 0 ∷ [])) empty_total
    ≡ (load_from_history when_added history >> load_from_history when_added (added_event 4 0 ∷ []))
        empty_total
load_from_history-append_test =
    load_from_history-append when_added history (added_event 4 0 ∷ []) empty_total

empty_total-IsNumbered : IsNumbered empty_total
empty_total-IsNumbered = record { numbered = tt; distinct = tt; counted = refl }

apply-IsNumbered_example : IsNumbered (apply when_added (added_event 1 10) true empty_total).1
unfolding apply add_domain_events exists_event
apply-IsNumbered_example =
    apply-IsNumbered when_added when_added-IsFramed (added_event 1 10) empty_total
      empty_total-IsNumbered refl

abbrev first : Added
first = record {
  base = some (record {
    event_id = 1;
    event_type = text "Added";
    occurred_on = 1;
    aggregate_id = 7;
    aggregate_sequence_number = 0;
  });
  payload = 10;
}

abbrev with_first : Total
with_first = record empty_total { current_version = 0; uncommitted_events = first ∷ []; state = 10 }

apply_first : (apply when_added (added_event 1 10) true empty_total).1 ≡ with_first
unfolding apply add_domain_events exists_event
apply_first = refl

abbrev refused_base : EventBase
refused_base = record {
  event_id = 2;
  event_type = text "Added";
  occurred_on = 1;
  aggregate_id = 0;
  aggregate_sequence_number = 18446744073709551615;
}

apply-refused_test :
    ((apply when_added (added_event 2 0) true with_first).0
      ≡ err (with_layer message (plain invalid_event_type)))
    × ((apply when_added (added_event 2 0) true with_first).1.uncommitted_events
        ≡ (first ∷ []) ++ (stamped with_first (added_event 2 0) refused_base ∷ []))
    × ((apply when_added (added_event 2 0) true with_first).1.current_version ≡ 0)
unfolding exists_event
apply-refused_test =
    apply-refused when_added when_added-IsFramed (added_event 2 0) with_first refused_base
      (plain invalid_event_type) refl refl refl

apply-duplicate_test :
    apply when_added (added_event 1 5) true with_first
    ≡ (err (with_layer message (plain event_already_exists)), with_first)
apply-duplicate_test =
    apply-duplicate when_added (added_event 1 5) first [] [] 1 with_first refl tt refl refl

-- Ids in the unary notation.
abbrev unary : ℕ → Text
unary zero = []
unary (suc n) = b'1' ∷ unary n

length-unary : (n : ℕ) → length (unary n) ≡ n
length-unary zero = refl
length-unary (suc n) = ap suc (length-unary n)

for_id_run : for_id unary (text "Order") 3 ≡ text "order-111"
unfolding for_id
for_id_run = refl

get_id-for_id_test : get_id (λ t. length t) (for_id unary (text "Order") 3) ≡ 3
get_id-for_id_test = get_id-for_id unary (λ t. length t) length-unary (text "Order") 3 (omega arith)
