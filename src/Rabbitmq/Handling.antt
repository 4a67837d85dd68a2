-- ===== src/Rabbitmq/Handling.antt =====
-- That the consumer (rabbitmq_consumer.go) handles a delivery as the account of it says.
use go_ecommerce_microservic.Common.{
  ℕ, ◌+◌, ◌-◌, text, [], ◌∷◌, ◌≡◌, refl, ap, ◌∙◌, Bool-cases, inl, inr, Outcome, ok, err, panic,
  Bool, true, false, Text, Option, none, if◌then◌else◌, bind, continue, text_eq, arith,
}
use go_ecommerce_microservic.Rabbitmq.Consumer.{
  Delivery, MessageConsumeContext, Server, acked, Libraries, RabbitMqConsumer, run_handlers,
  decoded, deserialize_data, create_consume_context, handle, handle_context, handle_received,
}
use go_ecommerce_microservic.Rabbitmq.Account.{
  Verdict, done, failed, crashed, seen, serve, served, account, IsDocumented,
}
use go_ecommerce_microservic.Rabbitmq.Serving.{run_handlers-serve}

abbrev is_failed : {A B : Type 0} → Outcome A B → Bool
is_failed (err e) = true
is_failed _ = false

given_back : (n : ℕ) → n + 1 - 1 ≡ n
given_back n = omega arith

module _ {W M E : Type 0} (lib : Libraries W M E) (documented : IsDocumented lib) where
  handled-served :
      (r : RabbitMqConsumer W M E) (context : MessageConsumeContext M) (tag : ℕ) (s : Server W)
      (x : Outcome {0, 0} E Unit × W)
      → run_handlers lib r r.handlers context s.world ≡ x
      → seen (handle_context lib r tag context s) ≡ served lib r context tag s (seen x)
  unfolding handle
  handled-served r context tag s (ok a, w) h = elim (Bool-cases r.auto_ack) [
    | inl auto ↦ rw (handle, h, auto)
    | inr manual ↦ elim (Bool-cases (lib.refuses (acked tag) w)) [
      | inl refused ↦ rw (handle, h, manual, refused)
      | inr taken ↦ rw (handle, h, manual, taken)
    ]
  ]
  handled-served r context tag s (err e, w) h = elim (Bool-cases r.auto_ack) [
    | inl auto ↦ rw (handle, h, auto)
    | inr manual ↦ rw (handle, h, manual)
  ]
  handled-served r context tag s (panic, w) h = rw (handle, h)

  handle_context-served :
      (r : RabbitMqConsumer W M E) (context : MessageConsumeContext M) (tag : ℕ) (s : Server W)
      → seen (handle_context lib r tag context s)
        ≡ served lib r context tag s (serve r.pipelines r.handlers context s.world)
  handle_context-served r context tag s =
      handled-served r context tag s (run_handlers lib r r.handlers context s.world) refl
      ∙ ap (served lib r context tag s)
          (run_handlers-serve lib documented r r.handlers context s.world)

  -- The slot is given back.
  abbrev released : Verdict × Server W → Verdict × Server W
  released (v, s) = (v, record s { delivery_routines = s.delivery_routines - 1 })

  seen-released :
      (x : Outcome {0, 0} E Unit × Server W)
      → seen (x.0, record x.1 { delivery_routines = x.1.delivery_routines - 1 }) ≡ released (seen x)
  seen-released (ok a, s) = refl
  seen-released (err e, s) = refl
  seen-released (panic, s) = refl

  served-released :
      (r : RabbitMqConsumer W M E) (context : MessageConsumeContext M) (tag : ℕ) (s : Server W)
      (v : Verdict × W)
      → released
          (served lib r context tag (record s { delivery_routines = s.delivery_routines + 1 }) v)
        ≡ served lib r context tag s v
  served-released r context tag s (done, w) = rw (given_back s.delivery_routines)
  served-released r context tag s (failed, w) = rw (given_back s.delivery_routines)
  served-released r context tag s (crashed, w) = rw (given_back s.delivery_routines)

  received-account :
      (r : RabbitMqConsumer W M E) (tag : ℕ) (s : Server W)
      (c : Outcome E (MessageConsumeContext M))
      → is_failed c ≡ false
      → released (
          seen (
            continue c
              (handle_context lib r tag)
              (record s { delivery_routines = s.delivery_routines + 1 })))
        ≡ account lib r tag s c
  received-account r tag s (ok context) h =
      ap released (
        handle_context-served r context tag
          (record s { delivery_routines = s.delivery_routines + 1 }))
      ∙ served-released r context tag s (serve r.pipelines r.handlers context s.world)
  received-account r tag s (err e) h = cc
  received-account r tag s panic h = rw (given_back s.delivery_routines)

  bind-unfailed :
      {A B : Type 0} (o : Outcome E A) (f : A → B)
      → is_failed o ≡ false
      → is_failed (bind o (λ a. ok (f a))) ≡ false
  bind-unfailed (ok a) f h = refl
  bind-unfailed (err e) f h = h
  bind-unfailed panic f h = refl

  decoded-unfailed : (o : Outcome E M) → is_failed (decoded lib o) ≡ false
  decoded-unfailed (ok message) = refl
  decoded-unfailed (err e) = refl
  decoded-unfailed panic = refl

  if-unfailed :
      (is_json : Bool) (o : Outcome E (Option M))
      → is_failed o ≡ false
      → is_failed (if is_json then o else ok none) ≡ false
  if-unfailed true o h = h
  if-unfailed false o h = refl

  -- Decoding never gives an error.
  deserialize_data-unfailed :
      (content_type type body : Text)
      → is_failed (deserialize_data lib content_type type body) ≡ false
  unfolding deserialize_data
  deserialize_data-unfailed content_type type [] = refl
  deserialize_data-unfailed content_type type (b ∷ body) =
      let json = text "application/json" in
      let content_type = if text_eq content_type [] then json else content_type in
      let o = lib.deserialize (b ∷ body) type content_type in
      if-unfailed (text_eq content_type json) (decoded lib o) (decoded-unfailed o)

  create_consume_context-made :
      (delivery : Delivery) → is_failed (create_consume_context lib delivery) ≡ false
  unfolding create_consume_context
  create_consume_context-made delivery =
      bind-unfailed (deserialize_data lib delivery.content_type delivery.type delivery.body) _
        (deserialize_data-unfailed delivery.content_type delivery.type delivery.body)

  -- A delivery is handled the way the account says. Where the serializer panics on its body, the
  -- handling panics too, and nothing is called or settled. Otherwise every handler is called in turn, inside the pipelines with
  -- the first of these outermost, at most three times each and up to the first that keeps failing;
  -- then, unless acknowledgement is automatic or a handler panicked, the delivery is settled exactly
  -- once, by an acknowledgement when all handlers were done and else by a refusal that puts it back
  -- on the queue; the notifications run after an acknowledgement that the broker took. In every case the
  -- slot of the delivery is free again. The libraries behave as documented.
  pub handle_received-served :
      (r : RabbitMqConsumer W M E) (delivery : Delivery) (s : Server W)
      → seen (handle_received lib r delivery s)
        ≡ account lib r delivery.delivery_tag s (create_consume_context lib delivery)
  unfolding handle_received
  handle_received-served r delivery s =
      seen-released _
      ∙ received-account r delivery.delivery_tag s (create_consume_context lib delivery)
          (create_consume_context-made delivery)
