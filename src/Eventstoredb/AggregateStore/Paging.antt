-- ===== src/Eventstoredb/AggregateStore/Paging.antt =====
-- The loop of `getStreamEvents` (internal/pkg/eventstroredb/aggregate_store.go) against a server that
-- reads as documented.
use go_ecommerce_microservic.Common.{
  ℕ, zero, suc, ◌≤◌, ◌<◌, ◌%◌, ◌≡◌, ◌≢◌, refl, true, false, Text, List, [], ◌∷◌, ◌++◌, Option, none,
  some, ok, arith, length, take, drop, take_all, length-take, length-drop, All, ltb, lt→ltb,
}
use native.Mathlib.Decide.{ℕ_discrete}
use go_ecommerce_microservic.Common.Word64.{minus, add64}
use go_ecommerce_microservic.EventSourcing.Event.{StreamEvent}
use go_ecommerce_microservic.Eventstoredb.Client.{Client, ResolvedEvent, ReadsForwards}
use go_ecommerce_microservic.Eventstoredb.Serializer.{
  Serializers, is_system_type, resolved_events_to_stream_events,
}
use go_ecommerce_microservic.Eventstoredb.EventStore.{read_events}
use go_ecommerce_microservic.Eventstoredb.AggregateStore.{get_stream_events}

-- None of the events is one of the server's own.
abbrev pub AreUserEvents : List ResolvedEvent → Type 0
AreUserEvents = All (λ r. is_system_type r.event.event_type ≡ false)

AreUserEvents-take :
    (n : ℕ) (es : List ResolvedEvent) → AreUserEvents es → AreUserEvents (take n es)
AreUserEvents-take zero es h = tt
AreUserEvents-take (suc n) [] h = tt
AreUserEvents-take (suc n) (e ∷ es) h = (h.0, AreUserEvents-take n es h.1)

AreUserEvents-tail : (es : List ResolvedEvent) → AreUserEvents es → AreUserEvents (drop 1 es)
AreUserEvents-tail [] h = tt
AreUserEvents-tail (e ∷ es) h = h.1

module _ {P M : Type 0} (z : Serializers P M) where
  length-resolved_le :
      (rs : List ResolvedEvent) → length (resolved_events_to_stream_events z rs) ≤ length rs
  unfolding resolved_events_to_stream_events
  length-resolved_le [] = omega arith
  length-resolved_le (r ∷ rs) = ground (arith, length-resolved_le rs)

  pub length-resolved :
      (rs : List ResolvedEvent)
      → AreUserEvents rs
      → length (resolved_events_to_stream_events z rs) ≡ length rs
  unfolding resolved_events_to_stream_events
  length-resolved [] h = refl
  length-resolved (r ∷ rs) h = ground (arith, h.0, length-resolved rs h.1)

module _ {S P M : Type 0} (c : Client S) (z : Serializers P M)
    {events_of : S → Text → Option (List ResolvedEvent)} (reads : ReadsForwards c events_of) where
  pub read_events-start :
      (s : S) (name : Text) (n : ℕ) (es : List ResolvedEvent)
      → events_of s name ≡ some es
      → read_events c z name 0 n s ≡ (ok (resolved_events_to_stream_events z (take n es)), s)
  unfolding read_events
  read_events-start s name n es h = rw (reads.from_start s name n es h)

  -- From any other position but the end the second event comes first.
  pub read_events-beyond :
      (s : S) (name : Text) (p n : ℕ) (es : List ResolvedEvent)
      → events_of s name ≡ some es
      → p ≢ 0
      → p ≢ minus 1
      → read_events c z name p n s
        ≡ (ok (resolved_events_to_stream_events z (take n (drop 1 es))), s)
  unfolding read_events
  read_events-beyond s name p n es h p≢0 p≢end = ground (arith, reads.from_revision s name 1 n es h)

  -- A stream of fewer events than a page is read whole, in one round.
  pub get_stream_events-short :
      (s : S) (name : Text) (fuel : ℕ) (es : List ResolvedEvent)
      → events_of s name ≡ some es
      → length es < 500
      → get_stream_events c z (suc fuel) name 0 [] s
        ≡ (ok (some (resolved_events_to_stream_events z es)), s)
  unfolding get_stream_events
  get_stream_events-short s name fuel es h short =
      let whole : take 500 es ≡ es = take_all 500 es (omega arith) in
      let r : read_events c z name 0 500 s ≡ (ok (resolved_events_to_stream_events z es), s) =
        rw whole at (read_events-start s name 500 es h) in
      let less : ltb (length (resolved_events_to_stream_events z es)) 500 ≡ true =
        lt→ltb _ _ (omega (arith, length-resolved_le z es)) in
      rw r (ground arith)

  -- Any page of a stream of more than 500 events is full.
  full_page :
      (s : S) (name : Text) (p : ℕ) (es : List ResolvedEvent)
      → events_of s name ≡ some es
      → AreUserEvents es
      → 501 ≤ length es
      → p ≢ minus 1
      → (page : List (Option (StreamEvent P M))) × (read_events c z name p 500 s ≡ (ok page, s))
        × (length page ≡ 500)
  full_page s name p es h user long p≢end = elim (ℕ_discrete p 0) [
    | yes e ↦ (
      resolved_events_to_stream_events z (take 500 es),
      rw e (read_events-start s name 500 es h),
      omega (
        arith,
        length-resolved z (take 500 es) (AreUserEvents-take 500 es user),
        length-take 500 es,
      ),
    )
    | no n ↦ (
      resolved_events_to_stream_events z (take 500 (drop 1 es)),
      read_events-beyond s name p 500 es h n p≢end,
      omega (
        arith,
        length-resolved z (take 500 (drop 1 es))
            (AreUserEvents-take 500 (drop 1 es) (AreUserEvents-tail es user)),
        length-take 500 (drop 1 es),
        length-drop 1 es,
      ),
    )
  ]

  -- On a stream of more than 500 events the loop never ends, whatever the number of rounds: each page
  -- after the first starts at the second event again. Positions stay multiples of 4.
  pub get_stream_events-diverges :
      (fuel : ℕ) (s : S) (name : Text) (p : ℕ) (acc : List (Option (StreamEvent P M)))
      (es : List ResolvedEvent)
      → events_of s name ≡ some es
      → AreUserEvents es
      → 501 ≤ length es
      → p % 4 ≡ 0
      → get_stream_events c z fuel name p acc s ≡ (ok none, s)
  unfolding get_stream_events
  get_stream_events-diverges zero s name p acc es h user long four = refl
  get_stream_events-diverges (suc fuel) s name p acc es h user long four =
      let (page, r, n) = full_page s name p es h user long (omega arith) in
      ground (
        arith,
        r,
        get_stream_events-diverges fuel s name (add64 (length page) p) (acc ++ page) es h user long
            (omega arith),
      )

  -- A stream of exactly one page is read twice, the second time without its first event.
  pub get_stream_events-exact_page :
      (s : S) (name : Text) (fuel : ℕ) (es : List ResolvedEvent)
      → events_of s name ≡ some es
      → AreUserEvents es
      → length es ≡ 500
      → get_stream_events c z (suc (suc fuel)) name 0 [] s ≡ (
        ok (
            some (
              resolved_events_to_stream_events z es
              ++ resolved_events_to_stream_events z (drop 1 es))),
        s,
      )
  unfolding get_stream_events
  get_stream_events-exact_page s name fuel es h user n =
      let first : take 500 es ≡ es = take_all 500 es (omega arith) in
      let second : take 500 (drop 1 es) ≡ drop 1 es =
        take_all 500 (drop 1 es) (omega (arith, length-drop 1 es)) in
      ground (
        arith,
        read_events-start s name 500 es h,
        read_events-beyond s name 500 500 es h (omega arith) (omega arith),
        first,
        second,
        length-resolved z es user,
        length-resolved z (drop 1 es) (AreUserEvents-tail es user),
        length-drop 1 es,
      )
