-- ===== src/Eventstoredb/Subscription.antt =====
-- internal/pkg/eventstroredb/subscription_all_worker.go and internal/pkg/es/projection_publisher.go:
-- the worker that follows all streams. `W` is what the handlers, the projections and the checkpoint
-- repository change together. Logging and the waits of a second are left out.
pub mod Sessions
pub mod Positions
pub mod Skipping
use go_ecommerce_microservic.Common.{
  ℕ, Bool, true, false, not, ltb, length, Text, text, text_eq, List, [], ◌∷◌, Option, none, some,
  ◌==◌, ◌||◌, if◌then◌else◌, Outcome, ok, err, panic, map_err, Action, pure, lift, wrap, ◌>>=◌,
  ◌>>◌,
}
use go_ecommerce_microservic.EventSourcing.Error.{Error, Layer, with_layer}
use go_ecommerce_microservic.EventSourcing.Event.{StreamEvent}
use go_ecommerce_microservic.Eventstoredb.Client.{ResolvedEvent}
use go_ecommerce_microservic.Eventstoredb.Serializer.{Serializers, resolved_event_to_stream_event}
use go_ecommerce_microservic.Eventstoredb.Checkpoint.{Repository}

-- `esdb.SubscriptionEvent`: which of its pointers is set; `caught` is an event with neither.
pub data SubscriptionEvent : Type 0 where
  subscription_dropped : SubscriptionEvent
  event_appeared : ResolvedEvent → SubscriptionEvent
  caught : SubscriptionEvent

-- `esdb.AllPosition`: `esdb.Start{}`, or a commit and a prepare position
pub data AllPosition : Type 0 where
  start_of_all : AllPosition
  at_position : ℕ → ℕ → AllPosition

-- How far `SubscribeAll` has come: it still tries to subscribe, it waits in `Recv`, or it waits in
-- the `select` until the context is done.
pub data Progress : Type 0 where
  subscribing receiving selecting : Progress

-- One attempt to subscribe: the events of the subscription in turn, or nothing if it failed.
abbrev pub Attempt : Type 0
Attempt = AllPosition → Option (List SubscriptionEvent)

-- `ProcessEvent` of a projection, and a handler of the mediator.
abbrev pub Handler : Type 0 → Type 0 → Type 0 → Type 0
Handler W P M = StreamEvent P M → Action W Error (Unit {0})

-- A nil list of projections does what an empty one does.
unfoldable pub publish :
    {W P M : Type 0} → List (Handler W P M) → Option (StreamEvent P M) → Action W Error (Unit {0})
publish projections none = pure tt
publish [] (some e) = pure tt
publish (projection ∷ projections) (some e) = do
  wrap (with_layer Layer.message) (projection e)
  publish projections (some e)

-- `GetFullTypeName(CheckpointStored{})`
abbrev pub checkpoint_full_type_name : Text
checkpoint_full_type_name = text "eventstroredb.CheckpointStored"

unfoldable pub is_event_with_empty_data : ResolvedEvent → Bool
is_event_with_empty_data r = length r.event.content == 0

unfoldable pub is_checkpoint_event : ResolvedEvent → Bool
is_checkpoint_event r = text_eq r.event.event_type checkpoint_full_type_name

-- Where the subscription starts: the position of a checkpoint, which is 0 if there is none.
unfoldable pub start_position : ℕ → AllPosition
start_position checkpoint =
    if checkpoint == 0 then start_of_all else at_position checkpoint checkpoint

unfoldable pub subscription_id_or_default : Text → Text
subscription_id_or_default [] = text "defaultLogger"
subscription_id_or_default (c ∷ cs) = c ∷ cs

module _ {W P M : Type 0} (z : Serializers P M) (repository : Repository W)
    (mediator : Handler W P M) (projections : List (Handler W P M)) where
  -- `handleEvent` after the event was decoded
  unfoldable pub handle_stream_event :
      Text → ResolvedEvent → StreamEvent P M → Action W Error (Unit {0})
  unfolding publish
  handle_stream_event id r e = do
    wrap (with_layer Layer.message) (mediator e)
    wrap (with_layer Layer.message) (publish projections (some e))
    wrap (with_layer Layer.message) (repository.store id r.event.commit_position)

  unfoldable pub handle_event : Text → ResolvedEvent → Action W Error (Unit {0})
  unfolding is_checkpoint_event is_event_with_empty_data handle_stream_event
  handle_event id r = if is_checkpoint_event r || is_event_with_empty_data r then pure tt else (do
    e ← lift (map_err (with_layer Layer.message) (resolved_event_to_stream_event z r))
    handle_stream_event id r e)

  -- The inner loop. `options.From` is set in it too, and read by no later call.
  unfoldable pub process_session : Text → List SubscriptionEvent → Action W Error Progress
  process_session id [] = pure receiving
  process_session id (subscription_dropped ∷ events) = pure selecting
  process_session id (caught ∷ events) = process_session id events
  process_session id (event_appeared r ∷ events) = do handle_event id r; process_session id events

  -- The outer loop, over the attempts made so far.
  unfoldable pub subscribe_from : Text → AllPosition → List Attempt → Action W Error Progress
  subscribe_from id from [] = pure subscribing
  subscribe_from id from (attempt ∷ attempts) = elim (attempt from) [
    | none ↦ subscribe_from id from attempts
    | some events ↦ process_session id events
  ]

  unfoldable pub subscribe_all : Text → List Attempt → Action W Error Progress
  unfolding subscribe_from subscription_id_or_default start_position
  subscribe_all id attempts = do
    checkpoint ← repository.load (subscription_id_or_default id)
    subscribe_from (subscription_id_or_default id) (start_position checkpoint) attempts
