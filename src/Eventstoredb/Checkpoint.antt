-- ===== src/Eventstoredb/Checkpoint.antt =====
-- Checkpoints of subscriptions: internal/pkg/eventstroredb/esdb_subscription_check_point_repository.go
-- and internal/pkg/es/inmemory_subscription_checkpoint_repository.go.
pub mod Laws
use go_ecommerce_microservic.Common.{
  ℕ, Bool, true, false, Text, text, text_eq, List, [], ◌∷◌, ◌++◌, Option, none, some, ◌⊎◌, ◌==◌,
  if◌then◌else◌, Outcome, ok, err, panic, bind, map_err, Action, pure, lift, wrap, ◌>>=◌, ◌>>◌,
}
use go_ecommerce_microservic.EventSourcing.Error.{
  ClientError, Error, Cause, Layer, plain, with_layer, is_stream_not_found, is_end_of_file,
  is_wrong_expected_stream_revision,
}
use go_ecommerce_microservic.EventSourcing.Event.{DomainEvent}
use go_ecommerce_microservic.Eventstoredb.Client.{
  Client, EventData, json_content_type, ExpectedRevision, StreamPosition, backwards, ResolvedEvent,
  ReadStream, StreamMetadata,
}
use go_ecommerce_microservic.Eventstoredb.Serializer.{Serializers, returned}

-- `contracts.SubscriptionCheckpointRepository`, over a state `W`
pub record Repository (W : Type 0) : Type 0 where
  pub load : Text → Action W Error ℕ
  pub store : Text → ℕ → Action W Error (Unit {0})

-- `getCheckpointStreamName`
abbrev pub checkpoint_stream_name : Text → Text
checkpoint_stream_name id = text "$cehckpoint_stream_" ++ id

-- `typeMapper.GetTypeName(&CheckpointStored{})`
abbrev pub checkpoint_type_name : Text
checkpoint_type_name = text "*CheckpointStored"

-- `deserialized.(*CheckpointStored)`: what the serializer gives is an `IDomainEvent`, and a
-- `*CheckpointStored` is none, for it embeds an `events.Event` only.
abbrev pub as_checkpoint_stored : {P : Type 0} → DomainEvent P → Option ℕ
as_checkpoint_stored e = none

abbrev position_or_zero : Option ℕ → ℕ
position_or_zero none = 0
position_or_zero (some position) = position

module _ {P M : Type 0} (z : Serializers P M) where
  -- `DeserializeObject`, which calls `Deserialize` of the event serializer
  unfoldable pub deserialize_object : ResolvedEvent → Outcome Error (DomainEvent P)
  deserialize_object r =
      bind (returned (z.deserialize r.event.content r.event.event_type r.event.content_type))
        λ e. bind (returned (z.deserialize_metadata r.event.user_metadata)) λ m. ok e

  -- `Load` after the stream was opened: one `Recv`, and its error.
  unfoldable pub first_position : ReadStream → Outcome Error ℕ
  unfolding deserialize_object
  first_position stream = elim stream.events [
    | [] ↦
        if is_end_of_file (Cause.client stream.last)
        then ok 0
        else err (with_layer Layer.message (plain (Cause.client stream.last)))
    | r ∷ rest ↦ bind (deserialize_object r) λ e. ok (position_or_zero (as_checkpoint_stored e))
  ]

  -- `SerializeObject` of a checkpoint without metadata. `write` is the JSON of a checkpoint, `id` what
  -- `uuid.NewV4` draws.
  unfoldable pub serialize_checkpoint :
      (Text → ℕ → ℕ ⊎ List ℕ) → M → ℕ → Text → ℕ → Outcome Error EventData
  serialize_checkpoint write no_metadata id subscription position =
      bind (returned (write subscription position)) λ bytes.
        bind (returned (z.serialize_metadata no_metadata)) λ m. ok (record {
          event_id = id;
          event_type = checkpoint_type_name;
          content = bytes;
          metadata = m;
          content_type = json_content_type;
        })

module _ {S : Type 0} (c : Client S) where
  -- `Store` after the append that expects the stream to exist has failed.
  unfoldable pub create_checkpoint_stream :
      Text → EventData → ClientError → Action S Error (Unit {0})
  create_checkpoint_stream name checkpoint e =
      if is_wrong_expected_stream_revision (Cause.client e)
      then (do
        wrap (λ x. with_layer Layer.message (plain (Cause.client x)))
            (c.set_stream_metadata name ExpectedRevision.no_stream
              (record { max_count = some 1; truncate_before = none }))
        wrap (λ x. plain (Cause.client x))
            (c.append_to_stream name ExpectedRevision.no_stream (checkpoint ∷ []))
        pure tt)
      else lift (err (plain (Cause.client e)))

module _ {S P M : Type 0} (c : Client S) (z : Serializers P M) where
  unfoldable pub load_checkpoint : Text → Action S Error ℕ
  unfolding first_position
  load_checkpoint id s =
      let (r, s') = c.read_stream (checkpoint_stream_name id) backwards StreamPosition.end 1 s in
      (
        elim r [
          | ok stream ↦ first_position z stream
          | err e ↦
              if is_stream_not_found (Cause.client e)
              then ok 0
              else err (with_layer Layer.message (plain (Cause.client e)))
          | panic ↦ panic
        ],
        s',
      )

  unfoldable pub store_checkpoint :
      (Text → ℕ → ℕ ⊎ List ℕ) → M → ℕ → Text → ℕ → Action S Error (Unit {0})
  unfolding serialize_checkpoint create_checkpoint_stream
  store_checkpoint write no_metadata id subscription position = do
    checkpoint ← lift (
        map_err (with_layer Layer.message)
          (serialize_checkpoint z write no_metadata id subscription position))
    λ s.
        let (r, s') =
          c.append_to_stream (checkpoint_stream_name subscription) ExpectedRevision.stream_exists
            (checkpoint ∷ []) s in
        elim r [
          | ok result ↦ (ok tt, s')
          | err e ↦ create_checkpoint_stream c (checkpoint_stream_name subscription) checkpoint e s'
          | panic ↦ (panic, s')
        ]

-- The repository in memory: the map's entries, the newest first; a missing key reads as 0.
abbrev pub Checkpoints : Type 0
Checkpoints = List (Text × ℕ)

unfoldable pub checkpoint_of : Checkpoints → Text → ℕ
checkpoint_of [] id = 0
checkpoint_of ((k, position) ∷ rest) id = if text_eq k id then position else checkpoint_of rest id

unfoldable pub in_memory : Repository Checkpoints
unfolding checkpoint_of
in_memory = record {
  load = λ id s.
      (ok (let checkpoint = checkpoint_of s id in if checkpoint == 0 then 0 else checkpoint), s);
  store = λ id position s. (ok tt, (id, position) ∷ s);
}
