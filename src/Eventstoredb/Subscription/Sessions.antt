-- ===== src/Eventstoredb/Subscription/Sessions.antt =====
-- Sessions of the worker (internal/pkg/eventstroredb/subscription_all_worker.go): what is handled after
-- a subscription was dropped, and which attempts to subscribe are made.
use go_ecommerce_microservic.Common.{
  ◌≡◌, refl, Text, List, [], ◌∷◌, ◌++◌, some, arith, ap, fun_ext, ◌>>=◌,
}
use go_ecommerce_microservic.Eventstoredb.Serializer.{Serializers}
use go_ecommerce_microservic.Eventstoredb.Checkpoint.{Repository}
use go_ecommerce_microservic.Eventstoredb.Subscription.{
  SubscriptionEvent, subscription_dropped, event_appeared, caught, Attempt, AllPosition, Handler,
  handle_event, process_session, subscribe_from, subscribe_all, subscription_id_or_default,
  start_position,
}

module _ {W P M : Type 0} (z : Serializers P M) (repository : Repository W)
    (mediator : Handler W P M) (projections : List (Handler W P M)) where
  -- What a subscription would give after it was dropped is not handled: the worker ends as if nothing
  -- came after the drop.
  pub process_session-dropped :
      (id : Text) (before after : List SubscriptionEvent) (w : W)
      → process_session z repository mediator projections id
          (before ++ (subscription_dropped ∷ after))
          w
        ≡ process_session z repository mediator projections id
            (before ++ (subscription_dropped ∷ []))
            w
  unfolding process_session
  process_session-dropped id [] after w = refl
  process_session-dropped id (subscription_dropped ∷ before) after w = refl
  process_session-dropped id (caught ∷ before) after w = process_session-dropped id before after w
  process_session-dropped id (event_appeared r ∷ before) after w =
      ap (λ f. (handle_event z repository mediator projections id r >>= λ _. f) w)
        (fun_ext (λ w'. process_session-dropped id before after w'))

  subscribe_from-accepted :
      (id : Text) (from : AllPosition) (failed later : List Attempt) (accepted : Attempt)
      (events : List SubscriptionEvent) (w : W)
      → accepted from ≡ some events
      → subscribe_from z repository mediator projections id from (failed ++ (accepted ∷ later)) w
        ≡ subscribe_from z repository mediator projections id from (failed ++ (accepted ∷ [])) w
  unfolding subscribe_from
  subscribe_from-accepted id from [] later accepted events w h = rw h
  subscribe_from-accepted id from (a ∷ failed) later accepted events w h =
      ground (arith, subscribe_from-accepted id from failed later accepted events w h)

  -- After the first attempt to subscribe that succeeds, however its subscription ends, no other attempt
  -- is made: the result and the state do not depend on what later attempts would give.
  pub subscribe_all-no_retry :
      (id : Text) (failed later : List Attempt) (events : AllPosition → List SubscriptionEvent)
      (w : W)
      → subscribe_all z repository mediator projections id
          (failed ++ ((λ from. some (events from)) ∷ later))
          w
        ≡ subscribe_all z repository mediator projections id
            (failed ++ ((λ from. some (events from)) ∷ []))
            w
  unfolding subscribe_all
  subscribe_all-no_retry id failed later events w =
      ap (λ f. (repository.load (subscription_id_or_default id) >>= f) w)
        (fun_ext (λ checkpoint. fun_ext (λ w'.
          subscribe_from-accepted (subscription_id_or_default id) (start_position checkpoint) failed
            later (λ from. some (events from)) (events (start_position checkpoint)) w' refl)))
