-- ===== src/Eventstoredb/Tests/Stores.antt =====
-- Runs of internal/pkg/eventstroredb/aggregate_store.go on the server in memory, and the theorems
-- about it at one input.
use go_ecommerce_microservic.Common.{
  ℕ, zero, suc, ◌≡◌, refl, ap, true, some, none, Text, text, List, [], ◌∷◌, ◌++◌, map, ok, err,
  panic, arith, length, bind, inl,
}
use go_ecommerce_microservic.EventSourcing.Error.{
  Layer, with_layer, stream_not_found, wrong_expected_stream_revision, is_aggregate_not_found_error,
}
use go_ecommerce_microservic.EventSourcing.Event.{StreamEvent}
use go_ecommerce_microservic.EventSourcing.Aggregate.{
  load_from_history, mark_uncommitted_event_as_committed,
}
use go_ecommerce_microservic.Eventstoredb.Client.{json_content_type, ResolvedEvent, AreRecorded}
use go_ecommerce_microservic.Eventstoredb.StreamName.{for_id}
use go_ecommerce_microservic.Eventstoredb.Serializer.{
  AppendEventsResult, resolved_events_to_stream_events,
}
use go_ecommerce_microservic.Eventstoredb.EventStore.{client_error, read_events}
use go_ecommerce_microservic.Eventstoredb.AggregateStore.{World, get_stream_events, load, store}
use go_ecommerce_microservic.Eventstoredb.AggregateStore.Sending.{sent}
use go_ecommerce_microservic.Eventstoredb.AggregateStore.Paging.{AreUserEvents}
use go_ecommerce_microservic.Eventstoredb.AggregateStore.Loading.{
  load-not_found, load-never_ends, load-short, load-undecodable, load-exact_page,
}
use go_ecommerce_microservic.Eventstoredb.AggregateStore.Storing.{
  refusal, store-conflict, store-again, store-load, load-store,
}
use go_ecommerce_microservic.Eventstoredb.Tests.Memory.{
  Server, find, memory, memory-ReadsForwards, memory-Appends, recorded,
}
use go_ecommerce_microservic.Eventstoredb.Tests.Counter.{
  Total, when_added, when_added-IsFramed, empty_total, added_event, write, numbers,
  numbers-IsFaithful,
}

-- Ids in the unary notation.
abbrev unary : ℕ → Text
unary zero = []
unary (suc n) = b'1' ∷ unary n

abbrev name : Text
name = text "total-1111111"

name-for_id : for_id unary (text "Total") 7 ≡ name
unfolding for_id
name-for_id = refl

-- `amounts n` are the records of n events of amount 1.
abbrev stored : ResolvedEvent
stored =
    let r = recorded name 0 (record {
      event_id = 1;
      event_type = text "Added";
      content = write (added_event 1 1);
      metadata = [];
      content_type = json_content_type;
    }) in
    record { event = r; original_event = r }

abbrev amounts : ℕ → List ResolvedEvent
amounts zero = []
amounts (suc n) = stored ∷ amounts n

length-amounts : (n : ℕ) → length (amounts n) ≡ n
length-amounts zero = refl
length-amounts (suc n) = ap suc (length-amounts n)

AreUserEvents-amounts : (n : ℕ) → AreUserEvents (amounts n)
AreUserEvents-amounts zero = tt
AreUserEvents-amounts (suc n) = (refl, AreUserEvents-amounts n)

abbrev decoded : StreamEvent ℕ (Unit {0})
decoded = record { event_id = 1; version = 0; position = 0; event = added_event 1 1; metadata = tt }

abbrev copies : ℕ → List (StreamEvent ℕ (Unit {0}))
copies zero = []
copies (suc n) = decoded ∷ copies n

resolved-amounts :
    (n : ℕ) → resolved_events_to_stream_events numbers (amounts n) ≡ map some (copies n)
unfolding resolved_events_to_stream_events
resolved-amounts zero = refl
resolved-amounts (suc n) = ap (λ l. some decoded ∷ l) (resolved-amounts n)

abbrev server : ℕ → Server
server n = (name, amounts n) ∷ []

content : (n : ℕ) → find (server n) (for_id unary (text "Total") 7) ≡ some (amounts n)
unfolding find for_id
content n = refl

load-not_found_example :
    (load memory numbers unary (text "Total") when_added empty_total 1 7 [] ≡ (
      err (
          with_layer Layer.message (
            with_layer Layer.aggregate_not_found
              (with_layer Layer.message (client_error Layer.read_stream stream_not_found)))),
      [],
    ))
    × (is_aggregate_not_found_error (
          with_layer Layer.message (
            with_layer Layer.aggregate_not_found
              (with_layer Layer.message (client_error Layer.read_stream stream_not_found))))
        ≡ true)
unfolding get_stream_events read_events find
load-not_found_example =
    load-not_found memory numbers unary (text "Total") when_added empty_total 1 7 [] [] _ refl

load-never_ends_example :
    load memory numbers unary (text "Total") when_added empty_total 1000000 7 (server 501)
    ≡ (ok none, server 501)
load-never_ends_example =
    load-never_ends memory numbers unary (text "Total") when_added empty_total memory-ReadsForwards
      7 (server 501) (amounts 501) (content 501) 1000000 (AreUserEvents-amounts 501)
      (omega (arith, length-amounts 501))

load-short_example :
    load memory numbers unary (text "Total") when_added empty_total 1 7 (server 2) ≡ (
      (let (r, a) =
            load_from_history when_added (added_event 1 1 ∷ added_event 1 1 ∷ []) empty_total in
          bind r λ _. ok (some a)),
      server 2,
    )
load-short_example =
    load-short memory numbers unary (text "Total") when_added empty_total memory-ReadsForwards 7
      (server 2) (amounts 2) (content 2) 0 decoded (decoded ∷ []) (omega arith) (resolved-amounts 2)

abbrev garbled : ResolvedEvent
garbled =
    let r =
      record (recorded name 0 (record {
        event_id = 1;
        event_type = text "Added";
        content = [];
        metadata = [];
        content_type = json_content_type;
      })) { content = [] } in
    record { event = r; original_event = r }

load-undecodable_test :
    load memory numbers unary
      (text "Total")
      when_added
      empty_total
      1
      7
      ((name, stored ∷ garbled ∷ []) ∷ [])
    ≡ (panic, (name, stored ∷ garbled ∷ []) ∷ [])
unfolding find for_id resolved_events_to_stream_events
load-undecodable_test =
    load-undecodable memory numbers unary (text "Total") when_added empty_total memory-ReadsForwards
      7 ((name, stored ∷ garbled ∷ []) ∷ []) (stored ∷ garbled ∷ []) refl 0 (some decoded ∷ []) []
      (omega arith) refl

abbrev twice_loaded : Total
twice_loaded = record empty_total { original_version = 998; current_version = 998; state = 999 }

load_500 :
    (load memory numbers unary (text "Total") when_added empty_total 2 7 (server 500)).0
    ≡ ok (some twice_loaded)
unfolding load get_stream_events read_events find for_id load_from_history
load_500 = refl

load-exact_page_test : twice_loaded.original_version ≡ 998
load-exact_page_test =
    load-exact_page memory numbers unary (text "Total") when_added empty_total memory-ReadsForwards
      7 (server 500) (amounts 500) (content 500) 0 (copies 500) twice_loaded when_added-IsFramed
      refl refl (AreUserEvents-amounts 500) (length-amounts 500) (resolved-amounts 500) load_500

-- A new aggregate with one pending event, over an empty server and over one that has its stream.
abbrev pending_over : Server → World Server ℕ ℕ
pending_over s = record {
  server = s;
  aggregate = record empty_total { uncommitted_events = added_event 1 1 ∷ [] };
}

store-conflict_example :
    store memory numbers unary (text "Total") (λ i. i) tt (pending_over (server 3))
    ≡ (err (refusal wrong_expected_stream_revision), pending_over (server 3))
store-conflict_example =
    store-conflict memory numbers unary (text "Total") (λ i. i) tt write [] numbers-IsFaithful
      memory-Appends (pending_over (server 3)) (added_event 1 1) [] (amounts 3) refl (content 3)
      (inl refl)

store-again_test :
    let stored = store memory numbers unary (text "Total") (λ i. i) tt (pending_over []) in
    let again : World Server ℕ ℕ = record (stored.1) {
      aggregate = record (stored.1.aggregate) { uncommitted_events = added_event 2 2 ∷ [] };
    } in
    (result : AppendEventsResult) × (stored.0 ≡ ok result)
    × (store memory numbers unary (text "Total") (λ i. i) tt again
        ≡ (err (refusal wrong_expected_stream_revision), again))
unfolding find
store-again_test =
    store-again memory numbers unary (text "Total") (λ i. i) tt write [] numbers-IsFaithful
      memory-Appends (pending_over []) (added_event 1 1) (added_event 2 2) [] [] refl refl refl

store-load_example :
    (result : AppendEventsResult) × (s' : Server) × (store memory numbers unary
        (text "Total")
        (λ i. i)
        tt
        (pending_over [])
      ≡ (
        ok result,
        record {
          server = s';
          aggregate = mark_uncommitted_event_as_committed (pending_over []).aggregate;
        },
      ))
    × (load memory numbers unary (text "Total") when_added empty_total 1 7 s' ≡ (
      (let (r, a) = load_from_history when_added (added_event 1 1 ∷ []) empty_total in
          bind r λ _. ok (some a)),
      s',
    ))
unfolding find
store-load_example =
    store-load memory numbers unary (text "Total") (λ i. i) tt write [] numbers-IsFaithful
      memory-Appends memory-ReadsForwards when_added empty_total (pending_over []) 0
      (added_event 1 1) [] refl (omega arith) refl refl

abbrev loaded_two : Total
loaded_two = record empty_total { original_version = 1; current_version = 1; state = 2 }

load_two :
    (load memory numbers unary (text "Total") when_added empty_total 1 7 (server 2)).0
    ≡ ok (some loaded_two)
unfolding load get_stream_events read_events find for_id load_from_history
load_two = refl

abbrev changed_two : World Server ℕ ℕ
changed_two = record {
  server = server 2;
  aggregate = record loaded_two { uncommitted_events = added_event 3 3 ∷ []; state = 5 };
}

load-store_example :
    (result : AppendEventsResult) × (s' : Server) × (rs : List ResolvedEvent) × (store memory
        numbers unary
        (text "Total")
        (λ i. i)
        tt
        changed_two
      ≡ (
        ok result,
        record changed_two {
          server = s';
          aggregate = mark_uncommitted_event_as_committed changed_two.aggregate;
        },
      ))
    × (find s' (for_id unary (text "Total") 7) ≡ some (amounts 2 ++ rs))
    × AreRecorded (sent numbers write tt [] numbers-IsFaithful (λ i. i) 0 (added_event 3 3 ∷ [])) rs
load-store_example =
    load-store memory numbers unary (text "Total") (λ i. i) tt write [] numbers-IsFaithful
      memory-Appends memory-ReadsForwards when_added empty_total changed_two 0 loaded_two
      (added_event 3 3) [] (amounts 2) decoded (decoded ∷ []) when_added-IsFramed refl refl
      (content 2) (omega arith) (AreUserEvents-amounts 2) (resolved-amounts 2) load_two refl refl
