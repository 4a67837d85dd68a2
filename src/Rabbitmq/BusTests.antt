-- ===== src/Rabbitmq/BusTests.antt =====
-- A bus of consumers whose messages, errors and world are numbers, for the theorem on rabbitmq-bus.go.
use go_ecommerce_microservic.Common.{ℕ, ◌+◌, text, text_eq, [], ◌∷◌, ◌≡◌, refl, ok, err}
use go_ecommerce_microservic.Rabbitmq.Consumer.{ConsumerHandler}
use go_ecommerce_microservic.Rabbitmq.Bus.{RabbitMqBus, with_handler}
use go_ecommerce_microservic.Rabbitmq.Connecting.{connect_all, handled_by, connect_all-handled_by}

abbrev first : ConsumerHandler ℕ ℕ ℕ
first context w = (ok tt, w + 1)

abbrev second : ConsumerHandler ℕ ℕ ℕ
second context w = (err 2, w)

-- A bus with one consumer, for another type.
abbrev bus : RabbitMqBus ℕ ℕ ℕ
bus = record {
  message_type_consumers = (text "Deleted", 0 ∷ []) ∷ [];
  store = with_handler second ∷ [];
  is_consumed_notification = λ message w. w;
}

connect_all-handled_by_example : connect_all bus (text "Created") (first ∷ second ∷ []) ≡ record {
  message_type_consumers = (text "Deleted", 0 ∷ []) ∷ (text "Created", 1 ∷ []) ∷ [];
  store = with_handler second ∷ handled_by bus (first ∷ second ∷ []) ∷ [];
  is_consumed_notification = λ message w. w;
}
unfolding text_eq
connect_all-handled_by_example =
    connect_all-handled_by bus (text "Created") refl first (second ∷ [])
