-- ===== src/Eventstoredb/AggregateStore/Loading.antt =====
-- `Load` (internal/pkg/eventstroredb/aggregate_store.go) against a server that reads as documented.
use go_ecommerce_microservic.Common.{
  ℕ, suc, ◌≤◌, ◌<◌, ◌≡◌, refl, true, false, Text, List, [], ◌∷◌, ◌++◌, map, Option, none, some, ok,
  err, panic, bind, arith, length, length-append, length-map, drop, ap, sym, ◌∙◌, length-drop,
}
use mathlib.Core.List.{map-append}
use go_ecommerce_microservic.EventSourcing.Error.{
  Error, Layer, with_layer, is_aggregate_not_found_error,
}
use go_ecommerce_microservic.EventSourcing.Version.{no_stream}
use go_ecommerce_microservic.EventSourcing.Event.{DomainEvent, StreamEvent}
use go_ecommerce_microservic.EventSourcing.Aggregate.{
  EventSourcedAggregateRoot, WhenFunc, load_from_history,
}
use go_ecommerce_microservic.EventSourcing.Aggregate.Frame.{IsFramed}
use go_ecommerce_microservic.EventSourcing.Aggregate.Loading.{load_from_history-versions}
use go_ecommerce_microservic.Eventstoredb.Client.{Client, ResolvedEvent, ReadsForwards}
use go_ecommerce_microservic.Eventstoredb.StreamName.{for_id}
use go_ecommerce_microservic.Eventstoredb.Serializer.{Serializers, resolved_events_to_stream_events}
use go_ecommerce_microservic.Eventstoredb.AggregateStore.{
  get_stream_events, distinct_pointers, domain_events, load,
}
use go_ecommerce_microservic.Eventstoredb.AggregateStore.Paging.{
  AreUserEvents, length-resolved, get_stream_events-short, get_stream_events-diverges,
  get_stream_events-exact_page,
}

module _ {P M : Type 0} where
  -- Pointers to events are all kept, and each is read.
  domain_events-some :
      (ds : List (StreamEvent P M))
      → domain_events (distinct_pointers false (map some ds)) ≡ ok (map (λ d. d.event) ds)
  domain_events-some [] = refl
  domain_events-some (d ∷ ds) = rw (domain_events-some ds)

  domain_events-nil :
      (xs ys : List (Option (StreamEvent P M)))
      → domain_events (distinct_pointers false (xs ++ (none ∷ ys))) ≡ panic
  domain_events-nil [] ys = refl
  domain_events-nil (none ∷ xs) ys = refl
  domain_events-nil (some x ∷ xs) ys = rw (domain_events-nil xs ys)

  drop-map : (ds : List (StreamEvent P M)) → drop 1 (map some ds) ≡ map some (drop 1 ds)
  drop-map [] = refl
  drop-map (d ∷ ds) = refl

  resolved-tail :
      (z : Serializers P M) (es : List ResolvedEvent)
      → AreUserEvents es
      → resolved_events_to_stream_events z (drop 1 es)
        ≡ drop 1 (resolved_events_to_stream_events z es)
  unfolding resolved_events_to_stream_events
  resolved-tail z [] h = refl
  resolved-tail z (e ∷ es) h = ground (arith, h.0)

module _ {S P M A : Type 0} (c : Client S) (z : Serializers P M) (uuid_string : ℕ → Text)
    (aggregate_name : Text) (when : WhenFunc P A) (empty : EventSourcedAggregateRoot P A) where
  -- Whatever error stops the reading of the stream, `Load` reports that the aggregate is not found,
  -- with that error as the cause; the server stays as the reading left it.
  pub load-not_found :
      (fuel id : ℕ) (s s' : S) (e : Error)
      → get_stream_events c z fuel (for_id uuid_string aggregate_name id) 0 [] s ≡ (err e, s')
      → (load c z uuid_string aggregate_name when empty fuel id s
          ≡ (err (with_layer Layer.message (with_layer Layer.aggregate_not_found e)), s'))
        × (is_aggregate_not_found_error
              (with_layer Layer.message (with_layer Layer.aggregate_not_found e))
            ≡ true)
  unfolding load is_aggregate_not_found_error
  load-not_found fuel id s s' e h = (rw h (ground arith), refl)

  module _ {events_of : S → Text → Option (List ResolvedEvent)} (reads : ReadsForwards c events_of)
      (id : ℕ) (s : S) (es : List ResolvedEvent)
      (content : events_of s (for_id uuid_string aggregate_name id) ≡ some es) where
    -- On a server that reads as documented, `Load` of a stream of more than 500 user events never
    -- returns: its reading still runs after any number of rounds.
    pub load-never_ends :
        (fuel : ℕ)
        → AreUserEvents es
        → 501 ≤ length es
        → load c z uuid_string aggregate_name when empty fuel id s ≡ (ok none, s)
    unfolding load
    load-never_ends fuel user long = rw (
        get_stream_events-diverges c z reads fuel s (for_id uuid_string aggregate_name id) 0 [] es
          content user long (omega arith))

    -- On a server that reads as documented, `Load` of a stream of 1 to 499 events that can all be
    -- decoded returns, leaves the server alone and gives the empty aggregate after the replay of
    -- the decoded events, or the replay's error.
    pub load-short :
        (fuel : ℕ) (d : StreamEvent P M) (ds : List (StreamEvent P M))
        → length es < 500
        → resolved_events_to_stream_events z es ≡ map some (d ∷ ds)
        → load c z uuid_string aggregate_name when empty (suc fuel) id s ≡ (
          (let (r, a) = load_from_history when (map (λ e. e.event) (d ∷ ds)) empty in
              bind r λ _. ok (some a)),
          s,
        )
    unfolding load
    load-short fuel d ds short decoded =
        rw
          (get_stream_events-short c z reads s (for_id uuid_string aggregate_name id) fuel es
            content short)
          (rw decoded (rw (domain_events-some ds) (ground arith)))

    -- On a server that reads as documented, `Load` of a stream of fewer than 500 events, with a
    -- user event that cannot be decoded, panics.
    pub load-undecodable :
        (fuel : ℕ) (xs ys : List (Option (StreamEvent P M)))
        → length es < 500
        → resolved_events_to_stream_events z es ≡ xs ++ (none ∷ ys)
        → load c z uuid_string aggregate_name when empty (suc fuel) id s ≡ (panic, s)
    unfolding load
    load-undecodable fuel xs ys short decoded =
        rw
          (get_stream_events-short c z reads s (for_id uuid_string aggregate_name id) fuel es
            content short)
          (rw decoded (ground (arith, length-append xs (none ∷ ys), domain_events-nil xs ys)))

    all_events :
        AreUserEvents es
        → (ds : List (StreamEvent P M)) → resolved_events_to_stream_events z es ≡ map some ds
        → resolved_events_to_stream_events z es ++ resolved_events_to_stream_events z (drop 1 es)
          ≡ map some (ds ++ drop 1 ds)
    all_events user ds decoded =
        rw (resolved-tail z es user, decoded, map-append) (ap (λ l. map some ds ++ l) (drop-map ds))

    decoded_length :
        AreUserEvents es
        → length es ≡ 500
        → (ds : List (StreamEvent P M)) → resolved_events_to_stream_events z es ≡ map some ds
        → length ds ≡ 500
    decoded_length user n ds decoded =
        sym (length-map some ds) ∙ sym (ap length decoded) ∙ length-resolved z es user ∙ n

    load-exact_page_history :
        (fuel : ℕ) (ds : List (StreamEvent P M))
        → AreUserEvents es
        → length es ≡ 500
        → resolved_events_to_stream_events z es ≡ map some ds
        → load c z uuid_string aggregate_name when empty (suc (suc fuel)) id s ≡ (
          (let (r, a) = load_from_history when (map (λ e. e.event) (ds ++ drop 1 ds)) empty in
              bind r λ _. ok (some a)),
          s,
        )
    unfolding load
    load-exact_page_history fuel ds user n decoded =
        let counted : length ds ≡ 500 = decoded_length user n ds decoded in
        rw
          (get_stream_events-exact_page c z reads s (for_id uuid_string aggregate_name id) fuel es
            content user n)
          (rw (all_events user ds decoded) (
            rw (domain_events-some (ds ++ drop 1 ds)) (
              ground (
                arith,
                length-map {A = StreamEvent P M} {B = Option (StreamEvent P M)} some
                    (ds ++ drop 1 ds),
                length-append ds (drop 1 ds),
                length-drop 1 ds,
              ))))

    -- On a server that reads as documented, if `Load` of a stream of exactly 500 decodable user
    -- events succeeds from a new aggregate, whose `When` leaves the versions alone, then the
    -- original version of what it gives is 998, while the last revision in the stream is 499.
    pub load-exact_page :
        (fuel : ℕ) (ds : List (StreamEvent P M)) (a : EventSourcedAggregateRoot P A)
        → IsFramed when
        → empty.original_version ≡ no_stream
        → empty.current_version ≡ no_stream
        → AreUserEvents es
        → length es ≡ 500
        → resolved_events_to_stream_events z es ≡ map some ds
        → (load c z uuid_string aggregate_name when empty (suc (suc fuel)) id s).0 ≡ ok (some a)
        → a.original_version ≡ 998
    load-exact_page fuel ds a framed o v user n decoded h =
        let history : List (DomainEvent P) = map (λ e. e.event) (ds ++ drop 1 ds) in
        let run = load_from_history when history empty in
        let ended : bind run.0 (λ _. ok (some run.1)) ≡ ok (some a) =
          sym (ap (λ r. r.0) (load-exact_page_history fuel ds user n decoded)) ∙ h in
        let counted : length ds ≡ 500 = decoded_length user n ds decoded in
        let same : run.1 ≡ a = ground arith in
        omega (
          arith,
          (load_from_history-versions when framed history empty (omega arith) (omega arith)
              (ground arith)).0,
          length-map (λ (e : StreamEvent P M). e.event) (ds ++ drop 1 ds),
          length-append ds (drop 1 ds),
          length-drop 1 ds,
          ap (λ (b : EventSourcedAggregateRoot P A). b.original_version) same,
        )
