-- ===== src/Eventstoredb/Subscription/Positions.antt =====
-- The checkpoint that the worker (internal/pkg/eventstroredb/subscription_all_worker.go) leaves behind.
use go_ecommerce_microservic.Common.{
  ℕ, ◌≡◌, refl, ◌∙◌, Bool, Text, List, [], ◌∷◌, ◌++◌, some, arith, Outcome, ok, err, panic, ap,
  if◌then◌else◌, ◌||◌, continue, map_err,
}
use go_ecommerce_microservic.EventSourcing.Error.{Error, Layer, with_layer}
use go_ecommerce_microservic.EventSourcing.Event.{StreamEvent}
use go_ecommerce_microservic.Eventstoredb.Client.{ResolvedEvent}
use go_ecommerce_microservic.Eventstoredb.Serializer.{Serializers, resolved_event_to_stream_event}
use go_ecommerce_microservic.Eventstoredb.Checkpoint.{Repository}
use go_ecommerce_microservic.Eventstoredb.Subscription.{
  SubscriptionEvent, subscription_dropped, event_appeared, caught, Handler, Progress,
  handle_stream_event, handle_event, process_session, publish, is_checkpoint_event,
  is_event_with_empty_data,
}

-- `p` if the call succeeded, or else `q`
abbrev pub if_ok : {A : Type 0} → Outcome Error A → ℕ → ℕ → ℕ
if_ok (ok a) p q = p
if_ok _ p q = q

-- What a checkpoint repository promises: a store that succeeds sets the position of the subscription,
-- and any other leaves it.
abbrev pub StoresPositions : {W : Type 0} → Repository W → Text → (W → ℕ) → Type 0
StoresPositions {W} repository id position =
    (p : ℕ) (w : W)
    → position (repository.store id p w).1 ≡ if_ok (repository.store id p w).0 p (position w)

-- A handler that leaves the checkpoint alone.
abbrev pub KeepsPosition : {W P M : Type 0} → (W → ℕ) → Handler W P M → Type 0
KeepsPosition {W} {P} {M} position f =
    (e : StreamEvent P M) (w : W) → position (f e w).1 ≡ position w

abbrev pub AllKeepPosition : {W P M : Type 0} → (W → ℕ) → List (Handler W P M) → Type 0
AllKeepPosition position [] = Unit
AllKeepPosition position (f ∷ fs) = KeepsPosition position f × AllKeepPosition position fs

-- Whether an event is passed over: a checkpoint by its full type name, or without content.
abbrev pub is_skipped : ResolvedEvent → Bool
is_skipped r = is_checkpoint_event r || is_event_with_empty_data r

-- The commit position of the last of the events that is not passed over, or else `p`.
abbrev pub last_commit : ℕ → List SubscriptionEvent → ℕ
last_commit p [] = p
last_commit p (event_appeared r ∷ es) =
    last_commit (if is_skipped r then p else r.event.commit_position) es
last_commit p (_ ∷ es) = last_commit p es

-- Events of a subscription that is not dropped.
abbrev pub AllUndropped : List SubscriptionEvent → Type 0
AllUndropped [] = Unit
AllUndropped (subscription_dropped ∷ es) = ⊥
AllUndropped (_ ∷ es) = AllUndropped es

publish-keeps :
    {W P M : Type 0} (position : W → ℕ) (projections : List (Handler W P M))
    → AllKeepPosition position projections
    → (e : StreamEvent P M) (w : W) → position (publish projections (some e) w).1 ≡ position w
unfolding publish
publish-keeps position [] h e w = refl
publish-keeps position (f ∷ fs) (h, hs) e w =
    ground (arith, h e w, publish-keeps position fs hs e (f e w).1)

module _ {W P M : Type 0} (z : Serializers P M) (repository : Repository W)
    (mediator : Handler W P M) (projections : List (Handler W P M)) (id : Text)
    (position : W → ℕ) where
  -- What stands where a session with this result stops: nothing more, a drop, or an event whose
  -- handling ended the session with its error or its panic.
  abbrev pub StopsAt : Outcome Error Progress × W → List SubscriptionEvent → Type 0
  StopsAt (ok Progress.receiving, after) [] = Unit
  StopsAt (ok Progress.selecting, after) (subscription_dropped ∷ tail) = Unit
  StopsAt (err e, after) (event_appeared r ∷ tail) =
      (w : W) × (handle_event z repository mediator projections id r w ≡ (err e, after))
  StopsAt (panic, after) (event_appeared r ∷ tail) =
      (w : W) × (handle_event z repository mediator projections id r w ≡ (panic, after))
  StopsAt _ _ = ⊥

  -- The session stops where `rest` begins, which is no later than the first drop, and the checkpoint is
  -- that of what was done before it.
  abbrev pub StopsAfter : ℕ → List SubscriptionEvent → Outcome Error Progress × W → Type 0
  StopsAfter before events (result, after) =
      (done : List SubscriptionEvent) × (rest : List SubscriptionEvent) × (events ≡ done ++ rest)
      × AllUndropped done
      × (position after ≡ last_commit before done)
      × StopsAt (result, after) rest

module _ {W P M : Type 0} (z : Serializers P M) (repository : Repository W)
    (mediator : Handler W P M) (projections : List (Handler W P M)) (id : Text) (position : W → ℕ)
    (stores : StoresPositions repository id position) (keeps : KeepsPosition position mediator)
    (all_keep : AllKeepPosition position projections) where
  handle_stream_event-position :
      (r : ResolvedEvent) (o : Outcome Error (StreamEvent P M)) (w : W)
      → let m =
          continue
            (map_err (with_layer Layer.message) o)
            (handle_stream_event z repository mediator projections id r) in
        position (m w).1 ≡ if_ok (m w).0 r.event.commit_position (position w)
  unfolding handle_stream_event
  handle_stream_event-position r (ok e) w =
      let w1 = (mediator e w).1 in
      let w2 = (publish projections (some e) w1).1 in
      ground (
        arith,
        keeps e w,
        publish-keeps position projections all_keep e w1,
        stores r.event.commit_position w2,
      )
  handle_stream_event-position r (err e) w = refl
  handle_stream_event-position r panic w = refl

  -- Handling an event moves the position to the event's commit if it succeeds, unless the event is
  -- passed over, and leaves it if it fails.
  handle_event-position :
      (r : ResolvedEvent) (w : W)
      → position (handle_event z repository mediator projections id r w).1
        ≡ if_ok
            (handle_event z repository mediator projections id r w).0
            (if is_skipped r then position w else r.event.commit_position)
            (position w)
  unfolding handle_event
  handle_event-position r w =
      ground (arith, handle_stream_event-position r (resolved_event_to_stream_event z r) w)

  abbrev Stopped : ℕ → List SubscriptionEvent → Outcome Error Progress × W → Type 0
  Stopped = StopsAfter z repository mediator projections id position

  continue-StopsAfter :
      (r : ResolvedEvent) (events : List SubscriptionEvent) (w0 : W) (before p : ℕ)
      (o : Outcome Error (Unit {0})) (w : W)
      → handle_event z repository mediator projections id r w0 ≡ (o, w)
      → p ≡ (if is_skipped r then before else r.event.commit_position)
      → position w ≡ if_ok o p before
      → Stopped (position w) events (process_session z repository mediator projections id events w)
      → Stopped before
          (event_appeared r ∷ events)
          (continue o (λ _. process_session z repository mediator projections id events) w)
  continue-StopsAfter r events w0 before p (ok u) w g e h (done, rest, split, whole, last, stop) = (
    event_appeared r ∷ done,
    rest,
    ap (λ l. event_appeared r ∷ l) split,
    whole,
    last ∙ ap (λ q. last_commit q done) (h ∙ e),
    stop,
  )
  continue-StopsAfter r events w0 before p (err x) w g e h s =
      ([], event_appeared r ∷ events, refl, tt, h, (w0, g))
  continue-StopsAfter r events w0 before p panic w g e h s =
      ([], event_appeared r ∷ events, refl, tt, h, (w0, g))

  -- A session stops somewhere in its events: at their end, at the first drop, or at an event before it whose
  -- handling fails or panics, with that error or panic. If the handlers leave the checkpoint alone
  -- and the repository stores positions, then the checkpoint is afterwards the commit position of the
  -- last event before that place that is not passed over, and what it was if there is none.
  pub process_session-position :
      (events : List SubscriptionEvent) (w : W)
      → Stopped (position w) events (process_session z repository mediator projections id events w)
  unfolding process_session
  process_session-position [] w = ([], [], refl, tt, refl, tt)
  process_session-position (subscription_dropped ∷ events) w =
      ([], subscription_dropped ∷ events, refl, tt, refl, tt)
  process_session-position (caught ∷ events) w =
      let (done, rest, e, u, p, h) = process_session-position events w in
      (caught ∷ done, rest, ap (λ l. caught ∷ l) e, u, p, h)
  process_session-position (event_appeared r ∷ events) w =
      let h = handle_event z repository mediator projections id r w in
      continue-StopsAfter r events w (position w) _ h.0 h.1 refl refl (handle_event-position r w)
        (process_session-position events h.1)
