-- ===== src/Rabbitmq/Connecting.antt =====
-- The consumers that a bus makes for handlers (rabbitmq-bus.go).
use go_ecommerce_microservic.Common.{
  ℕ, false, Text, text_eq, text_eq_refl, List, [], ◌∷◌, ◌++◌, length, ◌≡◌, refl, ap, ◌∙◌, sym, some,
  Bool-cases, inl, inr,
}
use go_ecommerce_microservic.Rabbitmq.Consumer.{RabbitMqConsumer, ConsumerHandler, connect_handler}
use go_ecommerce_microservic.Rabbitmq.Bus.{
  RabbitMqBus, consumers_for, append_for, change_at, connect_each, connect_consumer,
  add_new_consumer, connect_consumer_handler,
}

consumers_for-append_for :
    (entries : List (Text × List ℕ)) (key : Text) (n : ℕ)
    → consumers_for entries key ≡ []
    → consumers_for (append_for entries key n) key ≡ n ∷ []
consumers_for-append_for [] key n h = rw (text_eq_refl key)
consumers_for-append_for ((k, ns) ∷ entries) key n h = elim (Bool-cases (text_eq k key)) [
  | inl same ↦ rw same (rw same (ap (λ l. l ++ (n ∷ [])) (rw same at h)))
  | inr other ↦ rw other (rw other (consumers_for-append_for entries key n (rw other at h)))
]

change_at-last :
    {W M E : Type 0} (f : RabbitMqConsumer W M E → RabbitMqConsumer W M E)
    (store : List (RabbitMqConsumer W M E)) (c : RabbitMqConsumer W M E)
    → change_at f (length store) (store ++ (c ∷ [])) ≡ store ++ (f c ∷ [])
change_at-last f [] c = refl
change_at-last f (other ∷ store) c = ap (λ l. other ∷ l) (change_at-last f store c)

append_assoc :
    {A : Type 0} (xs : List A) (y : A) (ys : List A) → (xs ++ (y ∷ [])) ++ ys ≡ xs ++ (y ∷ ys)
append_assoc [] y ys = refl
append_assoc (x ∷ xs) y ys = ap (λ l. x ∷ l) (append_assoc xs y ys)

append_nil : {A : Type 0} (xs : List A) → xs ++ [] ≡ xs
append_nil [] = refl
append_nil (x ∷ xs) = ap (λ l. x ∷ l) (append_nil xs)

module _ {W M E : Type 0} where
  -- The handlers connected one after the other.
  abbrev pub connect_all :
      RabbitMqBus W M E → Text → List (ConsumerHandler W M E) → RabbitMqBus W M E
  connect_all r type_name [] = r
  connect_all r type_name (handler ∷ handlers) =
      connect_all (connect_consumer_handler r type_name handler) type_name handlers

  -- A bus with one consumer more, at the end of the store, for a type.
  abbrev pub with_consumer : RabbitMqBus W M E → Text → RabbitMqConsumer W M E → RabbitMqBus W M E
  with_consumer r type_name c = record r {
    message_type_consumers = append_for r.message_type_consumers type_name (length r.store);
    store = r.store ++ (c ∷ []);
  }

  abbrev pub handled_by : RabbitMqBus W M E → List (ConsumerHandler W M E) → RabbitMqConsumer W M E
  handled_by r handlers = record {
    auto_ack = false;
    handlers = handlers;
    pipelines = [];
    is_consumed_notifications = some r.is_consumed_notification ∷ [];
  }

  module _ (r : RabbitMqBus W M E) (type_name : Text)
      (new_type : consumers_for r.message_type_consumers type_name ≡ []) where
    connect_consumer_handler-again :
        (c : RabbitMqConsumer W M E) (handler : ConsumerHandler W M E)
        → connect_consumer_handler (with_consumer r type_name c) type_name handler
          ≡ with_consumer r type_name (connect_handler c handler)
    unfolding connect_consumer_handler connect_each connect_handler
    connect_consumer_handler-again c handler =
        rw
          (
            connect_consumer_handler,
            consumers_for-append_for r.message_type_consumers type_name (length r.store) new_type,
          )
          (rw (change_at-last (λ c'. connect_handler c' handler) r.store c))

    connect_consumer_handler-first :
        (handler : ConsumerHandler W M E)
        → connect_consumer_handler r type_name handler
          ≡ with_consumer r type_name (handled_by r (handler ∷ []))
    unfolding connect_consumer_handler add_new_consumer connect_consumer
    connect_consumer_handler-first handler = rw (connect_consumer_handler, new_type)

    connect_all-again :
        (handlers more : List (ConsumerHandler W M E))
        → connect_all (with_consumer r type_name (handled_by r handlers)) type_name more
          ≡ with_consumer r type_name (handled_by r (handlers ++ more))
    unfolding connect_handler
    connect_all-again handlers [] =
        ap (λ l. with_consumer r type_name (handled_by r l)) (sym (append_nil handlers))
    connect_all-again handlers (handler ∷ more) =
        ap (λ bus. connect_all bus type_name more)
          (connect_consumer_handler-again (handled_by r handlers) handler)
        ∙ connect_all-again (handlers ++ (handler ∷ [])) more
        ∙ ap (λ l. with_consumer r type_name (handled_by r l)) (append_assoc handlers handler more)

    -- However many handlers are connected to a message type that has no consumer, the bus gets one
    -- consumer for the type, which has the handlers in the order they were connected in, hands its
    -- messages to the bus's notification and settles deliveries itself; all other consumers stay as
    -- they were.
    pub connect_all-handled_by :
        (handler : ConsumerHandler W M E) (handlers : List (ConsumerHandler W M E))
        → connect_all r type_name (handler ∷ handlers)
          ≡ with_consumer r type_name (handled_by r (handler ∷ handlers))
    connect_all-handled_by handler handlers =
        ap (λ bus. connect_all bus type_name handlers) (connect_consumer_handler-first handler)
        ∙ connect_all-again (handler ∷ []) handlers
