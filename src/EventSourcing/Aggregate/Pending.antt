-- ===== src/EventSourcing/Aggregate/Pending.antt =====
-- The pending events of an aggregate (internal/pkg/es/models/event_sourced_aggregate.go, `Apply`).
use go_ecommerce_microservic.Common.{
  ℕ, ◌≡◌, ◌≢◌, refl, true, false, some, List, [], ◌∷◌, ◌++◌, arith, length, ok, err, All, subst, ap,
  length-append,
}
use go_ecommerce_microservic.Common.Word64.{add64}
use go_ecommerce_microservic.EventSourcing.Error.{
  Error, plain, with_layer, message, event_already_exists,
}
use go_ecommerce_microservic.EventSourcing.Event.{DomainEvent, EventBase, get_event_id}
use go_ecommerce_microservic.EventSourcing.Aggregate.{
  EventSourcedAggregateRoot, WhenFunc, exists_event, add_domain_events, apply,
}
use go_ecommerce_microservic.EventSourcing.Aggregate.Frame.{IsFramed}
use go_ecommerce_microservic.EventSourcing.Aggregate.Adding.{
  stamped, with_pending, added, refused, crashed, add_domain_events_cases,
}

module _ {P : Type 0} where
  -- The event has its header, with this aggregate's id and this number.
  abbrev pub IsStamped : ℕ → ℕ → DomainEvent P → Type 0
  IsStamped id number e =
      (b : EventBase) × (e.base ≡ some b)
      × (b.aggregate_id ≡ id)
      × (b.aggregate_sequence_number ≡ number)

  -- The events carry the numbers that follow `version`, one after the other.
  abbrev pub AreNumbered : ℕ → ℕ → List (DomainEvent P) → Type 0
  AreNumbered id version [] = Unit
  AreNumbered id version (e ∷ es) =
      IsStamped id (add64 version 1) e × AreNumbered id (add64 version 1) es

  -- No two events have one id.
  abbrev pub AreDistinct : List (DomainEvent P) → Type 0
  AreDistinct [] = Unit
  AreDistinct (e ∷ es) = All (λ f. get_event_id e ≢ get_event_id f) es × AreDistinct es

  AreNumbered-snoc :
      (id version : ℕ) (es : List (DomainEvent P)) (e : DomainEvent P)
      → AreNumbered id version es
      → IsStamped id (add64 (add64 version (length es)) 1) e
      → AreNumbered id version (es ++ (e ∷ []))
  AreNumbered-snoc id version [] e h (b, eb, i, n) = ((b, eb, i, omega (arith, n)), tt)
  AreNumbered-snoc id version (f ∷ fs) e h (b, eb, i, n) =
      (h.0, AreNumbered-snoc id (add64 version 1) fs e h.1 (b, eb, i, omega (arith, n)))

  other_ids :
      (e : DomainEvent P) (es : List (DomainEvent P))
      → exists_event e es ≡ ok false
      → All (λ f. get_event_id f ≢ get_event_id e) es
  unfolding exists_event
  other_ids e [] h = tt
  other_ids e (f ∷ fs) h = (ground arith, other_ids e fs (ground arith))

  AreDistinct-snoc :
      (es : List (DomainEvent P)) (e : DomainEvent P)
      → AreDistinct es
      → All (λ f. get_event_id f ≢ get_event_id e) es
      → AreDistinct (es ++ (e ∷ []))
  AreDistinct-snoc [] e h o = (tt, tt)
  AreDistinct-snoc (f ∷ fs) e h o = (All-snoc fs h.0 o.0, AreDistinct-snoc fs e h.1 o.1)
    where
      All-snoc :
          (gs : List (DomainEvent P))
          → All (λ g. get_event_id f ≢ get_event_id g) gs
          → get_event_id f ≢ get_event_id e
          → All (λ g. get_event_id f ≢ get_event_id g) (gs ++ (e ∷ []))
      All-snoc [] a n = (n, tt)
      All-snoc (g ∷ gs) a n = (a.0, All-snoc gs a.1 n)

module _ {P A : Type 0} where
  -- The pending events carry this aggregate's id, distinct ids of their own and the numbers that
  -- follow the original version, and the current version is the number of the last of them.
  pub record IsNumbered (a : EventSourcedAggregateRoot P A) : Type 0 where
    pub numbered : AreNumbered a.entity.id a.original_version a.uncommitted_events
    pub distinct : AreDistinct a.uncommitted_events
    pub counted : a.current_version ≡ add64 a.original_version (length a.uncommitted_events)

module _ {P A : Type 0} (when : WhenFunc P A) where
  -- A new event that `when` accepts, applied with a fresh id.
  apply_accepted :
      (e : DomainEvent P) (a : EventSourcedAggregateRoot P A) {e' : DomainEvent P}
      → (apply when e true a).0 ≡ ok e'
      → (b : EventBase) × (e.base ≡ some b)
        × (exists_event e a.uncommitted_events ≡ ok false)
        × ((apply when e true a).1
            ≡ record (when (stamped a e b) (with_pending a (stamped a e b))).1 {
              current_version =
                  add64 (when (stamped a e b) (with_pending a (stamped a e b))).1.current_version 1;
            })
  unfolding apply
  apply_accepted e a h = elim (add_domain_events_cases e a) [
    | added b eb f r ↦ (b, eb, f, ground (arith, r))
    | refused f r ↦ absurd (ground (arith, r))
    | crashed r ↦ absurd (ground (arith, r))
  ]

  module _ (framed : IsFramed when) where
    -- If `When` leaves the base of the aggregate alone, a new event that `Apply` accepts keeps the
    -- pending events numbered, owned and distinct, and the current version in step with them.
    pub apply-IsNumbered :
        (e : DomainEvent P) (a : EventSourcedAggregateRoot P A) {e' : DomainEvent P}
        → IsNumbered a
        → (apply when e true a).0 ≡ ok e'
        → IsNumbered (apply when e true a).1
    apply-IsNumbered e a v h =
        let (b, eb, f, r) = apply_accepted e a h in
        let s : DomainEvent P = stamped a e b in
        let p : EventSourcedAggregateRoot P A = with_pending a s in
        let kept : get_event_id e ≡ get_event_id s = ground arith in
        let same_id : (when s p).1.entity.id ≡ a.entity.id = framed.id s p _ refl refl in
        rw r (record {
          numbered =
              rw (same_id, framed.original s p, framed.uncommitted s p)
                (AreNumbered-snoc a.entity.id a.original_version a.uncommitted_events s v.numbered
                  (_, refl, refl, ap (λ n. add64 n 1) v.counted));
          distinct = rw framed.uncommitted (
              AreDistinct-snoc a.uncommitted_events s v.distinct (
                subst (λ i. All (λ f. get_event_id f ≢ i) a.uncommitted_events) kept
                  (other_ids e a.uncommitted_events f)));
          counted =
              rw (framed.original s p, framed.current s p, framed.uncommitted s p)
                (omega (arith, v.counted, length-append a.uncommitted_events (s ∷ [])));
        })

    -- If `When` leaves the base of the aggregate alone, an event with a header and a fresh id that
    -- `When` refuses stays pending, stamped with the next number, while the current version does
    -- not move and `Apply` gives the error.
    pub apply-refused :
        (e : DomainEvent P) (a : EventSourcedAggregateRoot P A) (b : EventBase) (x : Error)
        → e.base ≡ some b
        → exists_event e a.uncommitted_events ≡ ok false
        → (when (stamped a e b) (with_pending a (stamped a e b))).0 ≡ err x
        → ((apply when e true a).0 ≡ err (with_layer message x))
          × ((apply when e true a).1.uncommitted_events
              ≡ a.uncommitted_events ++ (stamped a e b ∷ []))
          × ((apply when e true a).1.current_version ≡ a.current_version)
    unfolding apply add_domain_events
    apply-refused e a b x eb f h =
        let s : DomainEvent P = stamped a e b in
        let p : EventSourcedAggregateRoot P A = with_pending a s in
        (ground arith, ground (arith, framed.uncommitted s p), ground (arith, framed.current s p))

  exists_event-append :
      (e f : DomainEvent P) (xs ys : List (DomainEvent P)) (i : ℕ)
      → All (λ g. (b : EventBase) × (g.base ≡ some b)) xs
      → get_event_id e ≡ ok i
      → get_event_id f ≡ ok i
      → exists_event e (xs ++ (f ∷ ys)) ≡ ok true
  unfolding exists_event
  exists_event-append e f [] ys i h p q = ground arith
  exists_event-append e f (x ∷ xs) ys i ((b, eb), h) p q =
      ground (arith, exists_event-append e f xs ys i h p q)

  -- A new event whose id a pending event has already, where the pending events before that one have
  -- their headers, is refused as a conflict, and the aggregate stays as it was.
  pub apply-duplicate :
      (e f : DomainEvent P) (xs ys : List (DomainEvent P)) (i : ℕ)
      (a : EventSourcedAggregateRoot P A)
      → a.uncommitted_events ≡ xs ++ (f ∷ ys)
      → All (λ g. (b : EventBase) × (g.base ≡ some b)) xs
      → get_event_id e ≡ ok i
      → get_event_id f ≡ ok i
      → apply when e true a ≡ (err (with_layer message (plain event_already_exists)), a)
  unfolding apply add_domain_events
  apply-duplicate e f xs ys i a u h p q =
      let found : exists_event e a.uncommitted_events ≡ ok true =
        rw u (exists_event-append e f xs ys i h p q) in
      ground arith
