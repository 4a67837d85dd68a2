-- ===== src/Eventstoredb/Tests/Subscriptions.antt =====
-- Runs of the subscription worker and the checkpoint repositories of internal/pkg/eventstroredb and
-- internal/pkg/es, and the theorems about them at one input.
use go_ecommerce_microservic.Common.{
  ℕ, ◌≡◌, ◌≢◌, refl, false, Text, text, text_eq, List, [], ◌∷◌, ◌++◌, some, none, inr, ok,
  if◌then◌else◌,
}
use go_ecommerce_microservic.Eventstoredb.Client.{EventData, json_content_type, ResolvedEvent}
use go_ecommerce_microservic.Eventstoredb.Checkpoint.{
  Checkpoints, checkpoint_of, in_memory, load_checkpoint, checkpoint_type_name,
  checkpoint_stream_name, serialize_checkpoint,
}
use go_ecommerce_microservic.Eventstoredb.Checkpoint.Laws.{
  load_checkpoint-zero, in_memory-load-store,
}
use go_ecommerce_microservic.Eventstoredb.Serializer.{resolved_event_to_stream_event}
use go_ecommerce_microservic.Eventstoredb.Subscription.{
  SubscriptionEvent, subscription_dropped, event_appeared, caught, Handler, Progress, handle_event,
  process_session, subscribe_all, is_checkpoint_event,
}
use go_ecommerce_microservic.Eventstoredb.Subscription.Sessions.{
  process_session-dropped, subscribe_all-no_retry,
}
use go_ecommerce_microservic.Eventstoredb.Subscription.Positions.{
  StopsAfter, StoresPositions, process_session-position,
}
use go_ecommerce_microservic.Eventstoredb.Subscription.Skipping.{
  serialize_checkpoint-is_checkpoint_event,
}
use go_ecommerce_microservic.Eventstoredb.Tests.Memory.{memory, recorded}
use go_ecommerce_microservic.Eventstoredb.Tests.Counter.{numbers, write, added_event}

abbrev id : Text
id = text "s"

-- An event of the given amount, at the given position.
abbrev added : ℕ → ResolvedEvent
added position =
    let r = recorded (text "total-1") position (record {
      event_id = 1;
      event_type = text "Added";
      content = write (added_event 1 4);
      metadata = [];
      content_type = json_content_type;
    }) in
    record { event = r; original_event = r }

abbrev idle : Handler Checkpoints ℕ (Unit {0})
idle e s = (ok tt, s)

abbrev session : List SubscriptionEvent
session = event_appeared (added 3) ∷ caught ∷ event_appeared (added 5) ∷ []

process_session-run :
    process_session numbers in_memory idle
      (idle ∷ [])
      id
      (session ++ (subscription_dropped ∷ session))
      []
    ≡ (ok Progress.selecting, (id, 5) ∷ (id, 3) ∷ [])
unfolding process_session in_memory handle_event text_eq resolved_event_to_stream_event
process_session-run = refl

in_memory-load-store_test :
    (in_memory.load id (in_memory.store id 5 []).1).0
    ≡ (if text_eq id id then ok 5 else (in_memory.load id []).0)
in_memory-load-store_test = in_memory-load-store id id 5 []

process_session-dropped_test :
    process_session numbers in_memory idle [] id (session ++ (subscription_dropped ∷ session)) []
    ≡ process_session numbers in_memory idle [] id (session ++ (subscription_dropped ∷ [])) []
process_session-dropped_test =
    process_session-dropped numbers in_memory idle [] id session session []

subscribe_all-no_retry_example :
    subscribe_all numbers in_memory idle [] id
      (((λ from. none) ∷ []) ++ ((λ from. some session) ∷ (λ from. some session) ∷ []))
      []
    ≡ subscribe_all numbers in_memory idle [] id
        (((λ from. none) ∷ []) ++ ((λ from. some session) ∷ []))
        []
subscribe_all-no_retry_example =
    subscribe_all-no_retry numbers in_memory idle [] id ((λ from. none) ∷ [])
      ((λ from. some session) ∷ []) (λ from. session) []

in_memory-StoresPositions : StoresPositions in_memory id (λ s. checkpoint_of s id)
unfolding in_memory text_eq
in_memory-StoresPositions p w = refl

process_session-position_example :
    StopsAfter numbers in_memory idle
      (idle ∷ [])
      id
      (λ s. checkpoint_of s id)
      0
      session
      (process_session numbers in_memory idle (idle ∷ []) id session [])
unfolding checkpoint_of
process_session-position_example =
    process_session-position numbers in_memory idle (idle ∷ []) id (λ s. checkpoint_of s id)
      in_memory-StoresPositions (λ e w. refl) ((λ e w. refl), tt) session []

abbrev checkpoint_data : EventData
checkpoint_data = record {
  event_id = 9;
  event_type = checkpoint_type_name;
  content = 5 ∷ [];
  metadata = [];
  content_type = json_content_type;
}

abbrev checkpoint_record : ResolvedEvent
checkpoint_record =
    let r = recorded (text "$cehckpoint_stream_s") 0 checkpoint_data in
    record { event = r; original_event = r }

serialize_checkpoint-run :
    serialize_checkpoint numbers (λ subscription position. inr (position ∷ [])) tt 9 id 5
    ≡ ok checkpoint_data
unfolding serialize_checkpoint
serialize_checkpoint-run = refl

serialize_checkpoint-is_checkpoint_event_test : is_checkpoint_event checkpoint_record ≡ false
serialize_checkpoint-is_checkpoint_event_test =
    serialize_checkpoint-is_checkpoint_event numbers (λ subscription position. inr (position ∷ []))
      tt 9 id 5 checkpoint_data checkpoint_record serialize_checkpoint-run
      (record { same_type = refl; same_content = refl; same_metadata = refl; as_json = λ e. refl })

load_checkpoint-zero_test :
    (load_checkpoint memory numbers id ((checkpoint_stream_name id, checkpoint_record ∷ []) ∷ [])).0
    ≢ ok 5
load_checkpoint-zero_test =
    load_checkpoint-zero memory numbers id
      ((checkpoint_stream_name id, checkpoint_record ∷ []) ∷ []) 4
