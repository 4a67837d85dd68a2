-- ===== src/Rabbitmq/Bus.antt =====
-- internal/pkg/rabbitmq/bus/rabbitmq-bus.go: which consumers a bus has for a message type, and how it starts
-- and stops them. Consumers are shared: a bus holds their places in a store. The order in which Go walks
-- a map is that of the entries. Logs are left out.
use go_ecommerce_microservic.Common.{
  ℕ, zero, suc, false, Text, text_eq, List, [], ◌∷◌, ◌++◌, length, Option, some, Outcome, ok, err,
  panic, Action, pure, if◌then◌else◌,
}
use go_ecommerce_microservic.Rabbitmq.Consumer.{RabbitMqConsumer, ConsumerHandler, connect_handler}
use go_ecommerce_microservic.Rabbitmq.Starting.{ConsumerError, err_disconnected}

-- The consumers for the types of messages, and the store of all consumers; a notification of the bus
-- for what its consumers have handled.
pub record RabbitMqBus (W M E : Type 0) : Type 0 where
  pub message_type_consumers : List (Text × List ℕ)
  pub store : List (RabbitMqConsumer W M E)
  pub is_consumed_notification : Option M → W → W

-- The entry of a key; a missing key has no consumers.
abbrev pub consumers_for : List (Text × List ℕ) → Text → List ℕ
consumers_for [] key = []
consumers_for ((k, consumers) ∷ entries) key =
    let rest = consumers_for entries key in if text_eq k key then consumers else rest

abbrev pub append_for : List (Text × List ℕ) → Text → ℕ → List (Text × List ℕ)
append_for [] key consumer = (key, consumer ∷ []) ∷ []
append_for ((k, consumers) ∷ entries) key consumer =
    let rest = append_for entries key consumer in
    if text_eq k key then (k, consumers ++ (consumer ∷ [])) ∷ entries else (k, consumers) ∷ rest

module _ {W M E : Type 0} where
  abbrev pub change_at :
      (RabbitMqConsumer W M E → RabbitMqConsumer W M E)
      → ℕ
      → List (RabbitMqConsumer W M E)
      → List (RabbitMqConsumer W M E)
  change_at f n [] = []
  change_at f zero (c ∷ cs) = f c ∷ cs
  change_at f (suc n) (c ∷ cs) = c ∷ change_at f n cs

  -- `ConnectHandler` of the consumers in turn
  unfoldable pub connect_each :
      ConsumerHandler W M E → List ℕ → List (RabbitMqConsumer W M E) → List (RabbitMqConsumer W M E)
  unfolding connect_handler
  connect_each handler [] store = store
  connect_each handler (n ∷ ns) store =
      connect_each handler ns (change_at (λ c. connect_handler c handler) n store)

  unfoldable pub connect_consumer : RabbitMqBus W M E → Text → ℕ → RabbitMqBus W M E
  unfolding text_eq
  connect_consumer r type_name consumer = record r {
    message_type_consumers = append_for r.message_type_consumers type_name consumer;
  }

  -- `CreateConsumer` of the factory, with the bus's notification, and its entry.
  unfoldable pub add_new_consumer :
      RabbitMqBus W M E → Text → RabbitMqConsumer W M E → RabbitMqBus W M E
  unfolding connect_consumer
  add_new_consumer r type_name consumer =
      connect_consumer
        (record r {
          store =
              r.store
              ++ (record consumer {
                is_consumed_notifications = some r.is_consumed_notification ∷ [];
              }
                  ∷ []);
        })
        type_name (length r.store)

  unfoldable pub connect_rabbit_mq_consumer :
      RabbitMqBus W M E → Text → RabbitMqConsumer W M E → RabbitMqBus W M E
  unfolding add_new_consumer
  connect_rabbit_mq_consumer r type_name consumer = add_new_consumer r type_name consumer

  -- The consumer of the builder with one handler and defaults.
  abbrev pub with_handler : ConsumerHandler W M E → RabbitMqConsumer W M E
  with_handler handler = record {
    auto_ack = false;
    handlers = handler ∷ [];
    pipelines = [];
    is_consumed_notifications = [];
  }

  abbrev pub connect_or_add :
      RabbitMqBus W M E → Text → ConsumerHandler W M E → List ℕ → RabbitMqBus W M E
  connect_or_add r type_name handler [] = add_new_consumer r type_name (with_handler handler)
  connect_or_add r type_name handler (n ∷ ns) = record r {
    store = connect_each handler (n ∷ ns) r.store;
  }

  unfoldable pub connect_consumer_handler :
      RabbitMqBus W M E → Text → ConsumerHandler W M E → RabbitMqBus W M E
  unfolding connect_each add_new_consumer text_eq
  connect_consumer_handler r type_name handler =
      connect_or_add r type_name handler (consumers_for r.message_type_consumers type_name)

-- `Start` and `Stop`, over those of the consumers.
module _ {W E : Type 0} (start stop : ℕ → Action {0, 0, 0} W (ConsumerError E) Unit) where
  -- The errors of the consumers are only logged; they stop side by side, here in some order.
  unfoldable pub stop_bus : List ℕ → Action {0, 0, 0} W (ConsumerError E) Unit
  stop_bus [] w = pure tt w
  stop_bus (n ∷ ns) w = let (result, w') = stop n w in stop_bus ns w'

  abbrev pub next_start :
      List ℕ
      → Action {0, 0, 0} W (ConsumerError E) Unit
      → Outcome {0, 0} (ConsumerError E) Unit × W
      → Outcome {0, 0} (ConsumerError E) Unit × W
  next_start all rest (ok a, w) = rest w
  next_start all rest (err err_disconnected, w) = rest w
  next_start all rest (err e, w) = let (result, w') = stop_bus all w in (err e, w')
  next_start all rest (panic, w) = (panic, w)

  -- The consumers in turn; one that is disconnected starts again by itself later.
  unfoldable pub start_bus : List ℕ → List ℕ → Action {0, 0, 0} W (ConsumerError E) Unit
  unfolding stop_bus
  start_bus all [] w = pure tt w
  start_bus all (n ∷ ns) w = next_start all (start_bus all ns) (start n w)
