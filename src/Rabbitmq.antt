-- ===== src/Rabbitmq.antt =====
-- internal/pkg/rabbitmq: the producer, the consumer and the bus, and what they share: the options, their
-- defaults, a message and its names (internal/pkg/core/messaging). Arguments of declarations, tracing
-- and logging are left out.
pub mod Consumer
pub mod Account
pub mod Serving
pub mod Handling
pub mod Producer
pub mod Delivering
pub mod Starting
pub mod Routing
pub mod Bus
pub mod Connecting
pub mod Workers
pub mod Connection
mod Tests
mod BusTests
use go_ecommerce_microservic.Common.{ℕ, Bool, true, false, Text, text, ◌++◌, List, [], Option, some}

-- `IMessage`: the methods of a message. A name is that of its type in snake case, by
-- `strcase.ToSnake`, and its base type is the one that `GetBaseReflectType` gives.
pub record Messages (M : Type 0) : Type 0 where
  pub ge_message_id : M → Text
  pub get_created : M → ℕ
  pub get_message_type_name : M → Text
  pub base_type : M → Text
  pub snake_name : M → Text

abbrev pub exchange_topic : Text
exchange_topic = text "topic"

pub record ExchangeOptions : Type 0 where
  pub name : Text
  pub type : Text
  pub auto_delete : Bool
  pub durable : Bool

pub record QueueOptions : Type 0 where
  pub name : Text
  pub durable : Bool
  pub exclusive : Bool
  pub auto_delete : Bool

pub record RabbitMqProducerConfiguration : Type 0 where
  pub producer_message_type : Text
  pub exchange_options : ExchangeOptions
  pub routing_key : Text
  pub delivery_mode : ℕ
  pub priority : ℕ
  pub app_id : Text
  pub expiration : Text
  pub reply_to : Text
  pub content_encoding : Text

module _ {M : Type 0} (messages : Messages M) (message : M) where
  abbrev pub get_message_name : Text
  get_message_name = messages.snake_name message

  abbrev pub get_topic_or_exchange_name : Text
  get_topic_or_exchange_name = messages.snake_name message

  abbrev pub get_queue_name : Text
  get_queue_name = messages.snake_name message

  abbrev pub get_routing_key : Text
  get_routing_key = messages.snake_name message

  abbrev pub new_default_rabbit_mq_producer_configuration : RabbitMqProducerConfiguration
  new_default_rabbit_mq_producer_configuration = record {
    producer_message_type = messages.base_type message;
    exchange_options = record {
      name = get_topic_or_exchange_name;
      type = exchange_topic;
      auto_delete = false;
      durable = true;
    };
    routing_key = get_routing_key;
    delivery_mode = 2;
    priority = 0;
    app_id = [];
    expiration = [];
    reply_to = [];
    content_encoding = [];
  }
