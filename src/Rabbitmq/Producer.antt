-- ===== src/Rabbitmq/Producer.antt =====
-- internal/pkg/rabbitmq/producer/rabbitmq_producer.go: publishing a message. `W` is the world outside; the
-- calls of the AMQP library, the serializer, the random ids and the clock are parameters. A map is not
-- shared: the metadata that the caller holds is changed in the source too, and is a result of
-- `get_metadata` here. Logs and spans, which hand an error on as it is, are left out, but for the headers that
-- the start of a span injects.
use go_ecommerce_microservic.Common.{
  ℕ, Bool, true, false, Text, ◌==◌, List, [], ◌∷◌, Option, none, some, if◌then◌else◌, Outcome, ok,
  err, Action, lift, ◌>>=◌, ◌>>◌,
}
use go_ecommerce_microservic.Messaging.{
  Metadata, get_correlation_id, set_correlation_id, get_message_id, set_message_id,
  set_message_name, set_message_type, set_message_content_type, get_message_created,
  set_message_created,
}
use go_ecommerce_microservic.Rabbitmq.{
  Messages, RabbitMqProducerConfiguration, ExchangeOptions, get_message_name,
  get_topic_or_exchange_name, get_routing_key, new_default_rabbit_mq_producer_configuration,
}

pub record EventSerializationResult : Type 0 where
  pub data_bytes : Text
  pub content_type : Text

-- `amqp091.Publishing`
pub record Publishing : Type 0 where
  pub correlation_id : Text
  pub message_id : Text
  pub timestamp : ℕ
  pub headers : Metadata
  pub type : Text
  pub content_type : Text
  pub body : Text
  pub delivery_mode : ℕ
  pub expiration : Text
  pub app_id : Text
  pub priority : ℕ
  pub reply_to : Text
  pub content_encoding : Text

-- The errors of `PublishMessageWithTopicName` itself, beside those of the libraries.
pub data PublishError (E : Type 0) : Type 0 where
  connection_is_nil connection_is_closed ack_not_confirmed : PublishError E
  failed : E → PublishError E

module _ (W M E C : Type 0) where
  -- The connection, which may be nil, and a channel `C`. `confirmed` waits for the confirmation of what
  -- was published.
  pub record Connection : Type 0 where
    pub is_closed : W → Bool
    pub channel : Action W (PublishError E) C
    pub exchange_declare : C → Text → ExchangeOptions → Action {0, 0, 0} W (PublishError E) Unit
    pub confirm : C → Action {0, 0, 0} W (PublishError E) Unit
    pub publish_with_context :
        C → Text → Text → Publishing → Action {0, 0, 0} W (PublishError E) Unit
    pub confirmed : C → Action W (PublishError E) Bool
    pub close : C → W → W

  pub record RabbitMqProducer : Type 0 where
    pub messages : Messages M
    pub serialize : M → Outcome (PublishError E) EventSerializationResult
    pub serializer_content_type : Text
    pub connection : Option Connection
    pub producers_configurations : Text → Option RabbitMqProducerConfiguration
    pub is_produced_notifications : List (Option (M → W → W))
    -- `uuid.NewV4().String()` and `time.Now()` of this call
    pub new_uuid : Text
    -- `Inject` of the propagator, which `StartProducerSpan` calls on the metadata
    pub inject : Metadata → Metadata
    pub now : ℕ

module _ {W M E C : Type 0} (r : RabbitMqProducer W M E C) where
  unfoldable pub get_producer_configuration_by_message : M → Option RabbitMqProducerConfiguration
  get_producer_configuration_by_message message =
      r.producers_configurations (r.messages.base_type message)

  abbrev pub from_metadata : Option Metadata → Metadata
  from_metadata none = []
  from_metadata (some m) = m

  abbrev pub when_empty : Text → Metadata → Metadata → Metadata
  when_empty [] changed m = changed
  when_empty (c ∷ cs) changed m = m

  -- The headers of a message: those of the caller stay, but for the type and the name.
  unfoldable pub get_metadata : M → Option Metadata → Metadata
  unfolding set_message_type set_message_content_type get_message_id set_message_id
      get_message_created set_message_created get_correlation_id set_correlation_id set_message_name
  get_metadata message meta =
      let m0 = from_metadata meta in
      let m1 = set_message_type m0 (r.messages.get_message_type_name message) in
      let m2 = set_message_content_type m1 r.serializer_content_type in
      let m3 =
        when_empty (get_message_id m2) (set_message_id m2 (r.messages.ge_message_id message)) m2 in
      let m4 =
        if get_message_created m3 == 0
        then set_message_created m3 (r.messages.get_created message)
        else m3 in
      let m5 = when_empty (get_correlation_id m4) (set_correlation_id m4 r.new_uuid) m4 in
      set_message_name m5 (get_message_name r.messages message)

  abbrev pub or_default : Text → Text → Text
  or_default [] default = default
  or_default (c ∷ cs) default = c ∷ cs

  abbrev pub configuration_or_default :
      M → Option RabbitMqProducerConfiguration → RabbitMqProducerConfiguration
  configuration_or_default message none =
      new_default_rabbit_mq_producer_configuration r.messages message
  configuration_or_default message (some c) = c

  abbrev pub producer_configuration : M → RabbitMqProducerConfiguration
  producer_configuration message =
      configuration_or_default message (r.producers_configurations (r.messages.base_type message))

  abbrev pub exchange_of : M → Text → Text
  exchange_of message topic_or_exchange_name = or_default topic_or_exchange_name (
      or_default (producer_configuration message).exchange_options.name
        (get_topic_or_exchange_name r.messages message))

  abbrev pub routing_key_of : M → Text
  routing_key_of message =
      or_default (producer_configuration message).routing_key (get_routing_key r.messages message)

  unfoldable pub publishing_of : M → Metadata → EventSerializationResult → Publishing
  unfolding get_correlation_id
  publishing_of message meta serialized_obj =
      let configuration = producer_configuration message in
      record {
        correlation_id = get_correlation_id meta;
        message_id = r.messages.ge_message_id message;
        timestamp = r.now;
        headers = meta;
        type = r.messages.get_message_type_name message;
        content_type = serialized_obj.content_type;
        body = serialized_obj.data_bytes;
        delivery_mode = configuration.delivery_mode;
        expiration = configuration.expiration;
        app_id = configuration.app_id;
        priority = configuration.priority;
        reply_to = configuration.reply_to;
        content_encoding = configuration.content_encoding;
      }

  abbrev pub notify_produced : List (Option (M → W → W)) → M → W → W
  notify_produced [] message w = w
  notify_produced (none ∷ notifications) message w = notify_produced notifications message w
  notify_produced (some notification ∷ notifications) message w =
      notify_produced notifications message (notification message w)

  -- `defer channel.Close()`
  abbrev pub closing :
      (W → W) → Action {0, 0, 0} W (PublishError E) Unit → Action {0, 0, 0} W (PublishError E) Unit
  closing close m w = let (result, w') = m w in (result, close w')

  abbrev pub finish : M → Bool → Action {0, 0, 0} W (PublishError E) Unit
  finish message true w = (ok tt, notify_produced r.is_produced_notifications message w)
  finish message false w = (err ack_not_confirmed, w)

  -- What is done on the channel.
  abbrev pub publish_on :
      Connection W M E C
      → C
      → M
      → Text
      → Text
      → Publishing
      → Action {0, 0, 0} W (PublishError E) Unit
  publish_on connection channel message exchange routing_key props =
      connection.exchange_declare channel exchange (producer_configuration message).exchange_options
      >> connection.confirm channel
      >> connection.publish_with_context channel exchange routing_key props
      >> (connection.confirmed channel >>= finish message)

  abbrev pub publish_connected :
      Option (Connection W M E C)
      → M
      → Text
      → Text
      → Publishing
      → Action {0, 0, 0} W (PublishError E) Unit
  publish_connected none message exchange routing_key props w = (err connection_is_nil, w)
  publish_connected (some connection) message exchange routing_key props w =
      let published =
        (connection.channel >>= λ channel.
        closing (connection.close channel)
          (publish_on connection channel message exchange routing_key props))
          w in
      if connection.is_closed w then (err connection_is_closed, w) else published

  unfoldable pub publish_message_with_topic_name :
      M → Option Metadata → Text → Action {0, 0, 0} W (PublishError E) Unit
  unfolding get_metadata publishing_of
  publish_message_with_topic_name message meta topic_or_exchange_name =
      lift (r.serialize message) >>= λ serialized_obj.
      publish_connected r.connection message (exchange_of message topic_or_exchange_name)
        (routing_key_of message)
        (publishing_of message (r.inject (get_metadata message meta)) serialized_obj)

  unfoldable pub publish_message : M → Option Metadata → Action {0, 0, 0} W (PublishError E) Unit
  unfolding publish_message_with_topic_name
  publish_message message meta = publish_message_with_topic_name message meta []
