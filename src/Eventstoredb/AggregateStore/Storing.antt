-- ===== src/Eventstoredb/AggregateStore/Storing.antt =====
-- `Store` (internal/pkg/eventstroredb/aggregate_store.go), alone and followed by `Load`, against a
-- server that reads and appends as documented.
use go_ecommerce_microservic.Common.{
  ℕ, suc, ◌<◌, ◌^◌, ◌≡◌, ◌≢◌, refl, Text, List, [], ◌∷◌, ◌++◌, map, Option, none, some, ok, err,
  panic, Outcome, bind, ◌⊎◌, inl, inr, arith, length, length-map, ap, sym, ◌∙◌,
}
use go_ecommerce_microservic.EventSourcing.Error.{
  Error, Layer, ClientError, with_layer, wrong_expected_stream_revision,
}
use go_ecommerce_microservic.EventSourcing.Version
use go_ecommerce_microservic.EventSourcing.Event.{DomainEvent, StreamEvent}
use go_ecommerce_microservic.EventSourcing.Aggregate.{
  EventSourcedAggregateRoot, WhenFunc, load_from_history, mark_uncommitted_event_as_committed,
}
use go_ecommerce_microservic.EventSourcing.Aggregate.Frame.{IsFramed}
use go_ecommerce_microservic.EventSourcing.Aggregate.Loading.{load_from_history-versions}
use go_ecommerce_microservic.Eventstoredb.AggregateStore.Paging.{AreUserEvents, length-resolved}
use go_ecommerce_microservic.Eventstoredb.Client.{
  Client, ResolvedEvent, ReadsForwards, Appends, AreRecorded, WriteResult,
}
use go_ecommerce_microservic.Eventstoredb.StreamName.{for_id}
use go_ecommerce_microservic.Eventstoredb.Serializer.{
  Serializers, AppendEventsResult, resolved_events_to_stream_events,
  expected_stream_version_to_esdb_expected_revision, esdb_write_result_to_append_event_result,
}
use go_ecommerce_microservic.Eventstoredb.EventStore.{events_data, append_events, client_error}
use go_ecommerce_microservic.Eventstoredb.AggregateStore.{World, store, load, stream_events}
use go_ecommerce_microservic.Eventstoredb.AggregateStore.Sending.{
  IsFaithful, sent, events_data-stream_events, resolved-sent,
}
use go_ecommerce_microservic.Eventstoredb.AggregateStore.Loading.{load-short}

-- The error of a `Store` whose append the client refuses.
abbrev pub refusal : ClientError → Error
refusal x =
    with_layer Layer.message (with_layer Layer.message (client_error Layer.append_to_stream x))

module _ {S P M A : Type 0} (c : Client S) (z : Serializers P M) (uuid_string : ℕ → Text)
    (aggregate_name : Text) (new_id : ℕ → ℕ) (meta : M) (bytes : DomainEvent P → List ℕ)
    (meta_bytes : List ℕ) (faithful : IsFaithful z bytes meta meta_bytes)
    {events_of : S → Text → Option (List ResolvedEvent)} (appends : Appends c events_of) where
  abbrev pub stream_of : EventSourcedAggregateRoot P A → Text
  stream_of a = for_id uuid_string aggregate_name a.entity.id

  -- What becomes of the server's answer to the append.
  abbrev answered :
      World S P A
      → Outcome ClientError WriteResult × S
      → Outcome Error AppendEventsResult × World S P A
  answered w (r, s') = elim r [
    | ok result ↦ (
      ok (esdb_write_result_to_append_event_result result),
      record w { server = s'; aggregate = mark_uncommitted_event_as_committed w.aggregate },
    )
    | err x ↦ (err (refusal x), record w { server = s' })
    | panic ↦ (panic, record w { server = s' })
  ]

  -- With events pending, `Store` is one append, expecting the original version.
  store-append :
      (w : World S P A) (e : DomainEvent P) (es : List (DomainEvent P))
      → w.aggregate.uncommitted_events ≡ e ∷ es
      → store c z uuid_string aggregate_name new_id meta w
        ≡ answered w (
            c.append_to_stream
              (stream_of w.aggregate)
              (expected_stream_version_to_esdb_expected_revision w.aggregate.original_version)
              (sent z bytes meta meta_bytes faithful new_id 0 (e ∷ es))
              w.server)
  unfolding store append_events
  store-append w e es pending =
      let sendable : events_data c z (
            stream_events z new_id meta w.aggregate.original_version 0
              w.aggregate.uncommitted_events)
          ≡ ok (sent z bytes meta meta_bytes faithful new_id 0 (e ∷ es)) =
        rw pending (
          events_data-stream_events z bytes meta meta_bytes faithful c new_id
            w.aggregate.original_version 0 (e ∷ es)) in
      ground arith

  -- A new aggregate with pending events, whose stream is not there.
  store_new :
      (w : World S P A) (e : DomainEvent P) (es : List (DomainEvent P))
      → w.aggregate.uncommitted_events ≡ e ∷ es
      → w.aggregate.original_version ≡ Version.no_stream
      → events_of w.server (stream_of w.aggregate) ≡ none
      → (result : AppendEventsResult) × (s' : S) × (rs : List ResolvedEvent) × (store c z
            uuid_string aggregate_name new_id meta w
          ≡ (
            ok result,
            record w { server = s'; aggregate = mark_uncommitted_event_as_committed w.aggregate },
          ))
        × (events_of s' (stream_of w.aggregate) ≡ some rs)
        × AreRecorded (sent z bytes meta meta_bytes faithful new_id 0 (e ∷ es)) rs
  unfolding expected_stream_version_to_esdb_expected_revision
  store_new w e es pending fresh missing =
      let (result, s', rs, done, content, recorded) =
        appends.to_no_stream w.server (stream_of w.aggregate)
          (sent z bytes meta meta_bytes faithful new_id 0 (e ∷ es)) missing in
      (
        esdb_write_result_to_append_event_result result,
        s',
        rs,
        store-append w e es pending ∙ rw fresh (rw done),
        content,
        recorded,
      )

  -- With serializers that read back what they write, and a server that appends as documented: if
  -- events are pending, and the stream is not in the state that the original version stands for (it
  -- is there already, for a new aggregate, or is of another length), `Store` fails with the
  -- client's "wrong expected revision", nothing is written and the events stay pending.
  pub store-conflict :
      (w : World S P A) (e : DomainEvent P) (es : List (DomainEvent P)) (old : List ResolvedEvent)
      → w.aggregate.uncommitted_events ≡ e ∷ es
      → events_of w.server (stream_of w.aggregate) ≡ some old
      → (w.aggregate.original_version ≡ Version.no_stream)
        ⊎ ((w.aggregate.original_version < 2 ^ 63)
            × (length old ≢ suc w.aggregate.original_version))
      → store c z uuid_string aggregate_name new_id meta w
        ≡ (err (refusal wrong_expected_stream_revision), w)
  unfolding expected_stream_version_to_esdb_expected_revision
  store-conflict w e es old pending content (inl fresh) =
      store-append w e es pending
      ∙ rw fresh (
          rw (
            appends.no_stream_refused w.server (stream_of w.aggregate)
              (sent z bytes meta meta_bytes faithful new_id 0 (e ∷ es)) old content))
  store-conflict w e es old pending content (inr (small, other)) =
      store-append w e es pending
      ∙ ground (
        arith,
        appends.revision_refused w.server (stream_of w.aggregate)
            (sent z bytes meta meta_bytes faithful new_id 0 (e ∷ es)) old
            w.aggregate.original_version content other,
      )

  -- With serializers that read back what they write, and a server that appends as documented: a
  -- second `Store` of an aggregate that was new, whose stream was not there and which has new
  -- pending events again, is refused, though nobody else wrote. The first one cleared the pending
  -- events and left the original version at "no stream".
  pub store-again :
      (w : World S P A) (e e' : DomainEvent P) (es es' : List (DomainEvent P))
      → w.aggregate.uncommitted_events ≡ e ∷ es
      → w.aggregate.original_version ≡ Version.no_stream
      → events_of w.server (stream_of w.aggregate) ≡ none
      → let stored = store c z uuid_string aggregate_name new_id meta w in
        let again : World S P A = record (stored.1) {
          aggregate = record (stored.1.aggregate) { uncommitted_events = e' ∷ es' };
        } in
        (result : AppendEventsResult) × (stored.0 ≡ ok result)
        × (store c z uuid_string aggregate_name new_id meta again
            ≡ (err (refusal wrong_expected_stream_revision), again))
  unfolding mark_uncommitted_event_as_committed
  store-again w e e' es es' pending fresh missing =
      let (result, s', rs, done, content, recorded) = store_new w e es pending fresh missing in
      rw done (result, refl, store-conflict _ e' es' rs refl content (inl fresh))

  module _ (reads : ReadsForwards c events_of) (when : WhenFunc P A)
      (empty : EventSourcedAggregateRoot P A) where
    -- With serializers that read back what they write, and a server that reads and appends as
    -- documented: a new aggregate with 1 to 499 pending events, whose stream is not there, can be
    -- stored; it has no pending events afterwards, and `Load` of its id replays exactly those
    -- events, in order, on the empty aggregate.
    pub store-load :
        (w : World S P A) (fuel : ℕ) (e : DomainEvent P) (es : List (DomainEvent P))
        → w.aggregate.uncommitted_events ≡ e ∷ es
        → length es < 499
        → w.aggregate.original_version ≡ Version.no_stream
        → events_of w.server (stream_of w.aggregate) ≡ none
        → (result : AppendEventsResult) × (s' : S) × (store c z uuid_string aggregate_name new_id
              meta w
            ≡ (
              ok result,
              record w { server = s'; aggregate = mark_uncommitted_event_as_committed w.aggregate },
            ))
          × (load c z uuid_string aggregate_name when empty (suc fuel) w.aggregate.entity.id s' ≡ (
            (let (r, a) = load_from_history when (e ∷ es) empty in bind r λ _. ok (some a)),
            s',
          ))
    store-load w fuel e es pending short fresh missing =
        let (result, s', rs, done, content, recorded) = store_new w e es pending fresh missing in
        (
          result,
          s',
          done,
          loaded s' rs content
              (resolved-sent z bytes meta meta_bytes faithful new_id 0 (e ∷ es) rs recorded),
        )
      where
        loaded :
            (s' : S) (rs : List ResolvedEvent)
            → events_of s' (stream_of w.aggregate) ≡ some rs
            → (ds : List (StreamEvent P M)) × (resolved_events_to_stream_events z rs ≡ map some ds)
              × (map (λ d. d.event) ds ≡ e ∷ es)
              × (length rs ≡ suc (length es))
            → load c z uuid_string aggregate_name when empty (suc fuel) w.aggregate.entity.id s' ≡ (
              (let (r, a) = load_from_history when (e ∷ es) empty in bind r λ _. ok (some a)),
              s',
            )
        loaded s' rs content ([], same, back, n) = cc
        loaded s' rs content (d ∷ ds, same, back, n) = rw back at (
            load-short c z uuid_string aggregate_name when empty reads w.aggregate.entity.id s' rs
              content fuel d ds (omega (arith, n)) same)

    -- With serializers that read back what they write, and a server that reads and appends as
    -- documented: an aggregate that `Load` gives for a stream of 1 to 499 decodable user events,
    -- whose `When` leaves the versions alone, can be changed and stored. With new pending events,
    -- and the stream as it was loaded, `Store` succeeds, and the new events stand behind the old
    -- ones in the stream.
    pub load-store :
        (w : World S P A) (fuel : ℕ) (a : EventSourcedAggregateRoot P A) (e : DomainEvent P)
        (es : List (DomainEvent P)) (old : List ResolvedEvent) (d : StreamEvent P M)
        (ds : List (StreamEvent P M))
        → IsFramed when
        → empty.original_version ≡ Version.no_stream
        → empty.current_version ≡ Version.no_stream
        → events_of w.server (stream_of w.aggregate) ≡ some old
        → length old < 500
        → AreUserEvents old
        → resolved_events_to_stream_events z old ≡ map some (d ∷ ds)
        → (load c z uuid_string aggregate_name when empty
            (suc fuel)
            w.aggregate.entity.id
            w.server).0
          ≡ ok (some a)
        → w.aggregate.original_version ≡ a.original_version
        → w.aggregate.uncommitted_events ≡ e ∷ es
        → (result : AppendEventsResult) × (s' : S) × (rs : List ResolvedEvent) × (store c z
              uuid_string aggregate_name new_id meta w
            ≡ (
              ok result,
              record w { server = s'; aggregate = mark_uncommitted_event_as_committed w.aggregate },
            ))
          × (events_of s' (stream_of w.aggregate) ≡ some (old ++ rs))
          × AreRecorded (sent z bytes meta meta_bytes faithful new_id 0 (e ∷ es)) rs
    unfolding expected_stream_version_to_esdb_expected_revision
    load-store w fuel a e es old d ds framed o v content short user decoded loaded same pending =
        let history : List (DomainEvent P) = map (λ b. b.event) (d ∷ ds) in
        let run = load_from_history when history empty in
        let ended : bind run.0 (λ _. ok (some run.1)) ≡ ok (some a) =
          sym (
            ap (λ r. r.0)
              (load-short c z uuid_string aggregate_name when empty reads w.aggregate.entity.id
                w.server old content fuel d ds short decoded))
          ∙ loaded in
        let replayed : run.1 ≡ a = ground arith in
        let counted : length old ≡ length (d ∷ ds) =
          sym (length-resolved z old user) ∙ ap length decoded ∙ length-map some (d ∷ ds) in
        let revision : w.aggregate.original_version ≡ length ds = omega (
          arith,
          (load_from_history-versions when framed history empty (omega arith) (omega arith)
              (ground arith)).0,
          length-map (λ (b : StreamEvent P M). b.event) (d ∷ ds),
          ap (λ (b : EventSourcedAggregateRoot P A). b.original_version) replayed,
        ) in
        let (result, s', rs, done, content', recorded) =
          appends.at_revision w.server (stream_of w.aggregate)
            (sent z bytes meta meta_bytes faithful new_id 0 (e ∷ es)) old (length ds) content
            counted in
        (
          esdb_write_result_to_append_event_result result,
          s',
          rs,
          store-append w e es pending ∙ rw revision (ground (arith, done)),
          content',
          recorded,
        )
