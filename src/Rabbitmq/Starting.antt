-- ===== src/Rabbitmq/Starting.antt =====
-- internal/pkg/rabbitmq/consumer: the configuration of a consumer, and what `Start` of rabbitmq_consumer.go
-- declares on its channel before the workers run (module Workers). `W` is the world outside and `C` a
-- channel; the calls of the AMQP library are parameters, and the arguments of a declaration are left out.
use go_ecommerce_microservic.Common.{
  ℕ, ◌*◌, Bool, true, false, Text, text, ◌++◌, [], ◌∷◌, Option, none, some, Outcome, ok, err,
  Action, lift, wrap, ◌>>=◌, ◌>>◌,
}
use go_ecommerce_microservic.Rabbitmq.{
  Messages, ExchangeOptions, QueueOptions, exchange_topic, get_message_name,
  get_topic_or_exchange_name, get_queue_name, get_routing_key,
}

-- The type of the messages may be nil.
pub record RabbitMqConsumerConfiguration : Type 0 where
  pub name : Text
  pub consumer_message_type : Option Text
  pub consumer_id : Text
  pub concurrency_limit : ℕ
  pub prefetch_count : ℕ
  pub auto_ack : Bool
  pub no_local : Bool
  pub no_wait : Bool
  pub binding_routing_key : Text
  pub queue_options : QueueOptions
  pub exchange_options : ExchangeOptions

abbrev pub new_default_rabbit_mq_consumer_configuration :
    {M : Type 0} → Messages M → M → RabbitMqConsumerConfiguration
new_default_rabbit_mq_consumer_configuration messages message = record {
  name = get_message_name messages message ++ text "_consumer";
  consumer_message_type = some (messages.base_type message);
  consumer_id = [];
  concurrency_limit = 1;
  prefetch_count = 4;
  auto_ack = false;
  no_local = false;
  no_wait = true;
  binding_routing_key = get_routing_key messages message;
  queue_options = record {
    name = get_queue_name messages message;
    durable = true;
    exclusive = false;
    auto_delete = false;
  };
  exchange_options = record {
    name = get_topic_or_exchange_name messages message;
    type = exchange_topic;
    auto_delete = false;
    durable = true;
  };
}

pub data ConsumerError (E : Type 0) : Type 0 where
  configuration_required message_type_required connection_is_nil err_disconnected : ConsumerError E
  refused : E → ConsumerError E

module _ {E : Type 0} where
  -- The checks of `NewRabbitMQConsumer`: the configuration and its message type.
  unfoldable pub new_rabbit_mq_consumer :
      Option RabbitMqConsumerConfiguration
      → Outcome (ConsumerError E) (RabbitMqConsumerConfiguration × Text)
  new_rabbit_mq_consumer none = err configuration_required
  new_rabbit_mq_consumer (some options) = elim options.consumer_message_type [
    | none ↦ err message_type_required
    | some type ↦ ok (options, type)
  ]

module _ (W E C : Type 0) where
  pub record ConsumerConnection : Type 0 where
    pub channel : Action W E C
    pub qos : C → ℕ → Action {0, 0, 0} W E Unit
    pub exchange_declare : C → Text → ExchangeOptions → Bool → Action {0, 0, 0} W E Unit
    pub queue_declare : C → Text → QueueOptions → Bool → Action {0, 0, 0} W E Unit
    pub queue_bind : C → Text → Text → Text → Bool → Action {0, 0, 0} W E Unit
    -- the queue, the consumer's id, and whether the server acknowledges, the queue is exclusive, and
    -- the consumer's flags
    pub consume : C → Text → Text → Bool → Bool → Bool → Bool → Action {0, 0, 0} W E Unit

abbrev pub name_or : Text → Text → Text
name_or [] name = name
name_or (c ∷ cs) name = c ∷ cs

-- `snake` is the name that `utils.Get...FromType` gives the message type.
module _ (options : RabbitMqConsumerConfiguration) (snake : Text) where
  abbrev pub consumer_exchange : Text
  consumer_exchange = name_or options.exchange_options.name snake

  abbrev pub consumer_routing_key : Text
  consumer_routing_key = name_or options.binding_routing_key snake

  abbrev pub consumer_queue : Text
  consumer_queue = name_or options.queue_options.name snake

module _ {W E C : Type 0} (options : RabbitMqConsumerConfiguration) (snake : Text) where
  abbrev pub declare : ConsumerConnection W E C → C → Action {0, 0, 0} W (ConsumerError E) Unit
  declare connection channel = wrap refused (
      connection.qos channel (options.concurrency_limit * options.prefetch_count)
      >> connection.exchange_declare channel (consumer_exchange options snake)
          options.exchange_options options.no_wait
      >> connection.queue_declare channel (consumer_queue options snake) options.queue_options
          options.no_wait
      >> connection.queue_bind channel (consumer_queue options snake)
          (consumer_routing_key options snake) (consumer_exchange options snake) options.no_wait
      >> connection.consume channel (consumer_queue options snake) options.consumer_id
          options.auto_ack options.queue_options.exclusive options.no_local options.no_wait)

  -- Every error of opening the channel is reported as `ErrDisconnected`.
  unfoldable pub start_consuming :
      Option (ConsumerConnection W E C) → Action {0, 0, 0} W (ConsumerError E) Unit
  start_consuming none = lift (err connection_is_nil)
  start_consuming (some connection) =
      wrap (λ e. err_disconnected) connection.channel >>= λ channel. declare connection channel
