-- ===== src/Rabbitmq/Consumer.antt =====
-- internal/pkg/rabbitmq/consumer/rabbitmq_consumer.go: how a consumer handles a delivery. `W` is what
-- handlers and notifications change; the retry library, the fold of go-linq, the message serializer and
-- the answers of the broker are parameters. Logs and spans are left out.
use go_ecommerce_microservic.Common.{
  ℕ, ◌+◌, ◌-◌, Bool, Text, text, text_eq, List, [], ◌∷◌, ◌++◌, Option, none, some, if◌then◌else◌,
  Outcome, ok, err, panic, Action, bind, continue, pure, wrap, ◌>>◌,
}
use go_ecommerce_microservic.Messaging.{Metadata}

-- `amqp091.Delivery`; the headers may be nil.
pub record Delivery : Type 0 where
  pub headers : Option Metadata
  pub content_type : Text
  pub type : Text
  pub body : Text
  pub timestamp : ℕ
  pub delivery_tag : ℕ
  pub message_id : Text
  pub correlation_id : Text

pub record MessageConsumeContext (M : Type 0) : Type 0 where
  pub metadata : Option Metadata
  pub content_type : Text
  pub message_type : Text
  pub message_id : Text
  pub created : ℕ
  pub tag : ℕ
  pub correlation_id : Text
  pub message : Option M

abbrev pub new_message_consume_context :
    {M : Type 0}
    → Option M
    → Option Metadata
    → Text
    → Text
    → ℕ
    → ℕ
    → Text
    → Text
    → MessageConsumeContext M
new_message_consume_context message meta content_type message_type created delivery_tag message_id
      correlation_id =
    record {
      metadata = meta;
      content_type = content_type;
      message_type = message_type;
      message_id = message_id;
      created = created;
      tag = delivery_tag;
      correlation_id = correlation_id;
      message = message;
    }

-- A call of `Ack(false)` or of `Nack(false, true)` with the delivery's tag.
pub data Settlement : Type 0 where
  acked nacked : ℕ → Settlement

-- What the calls of a consumer change: the world of the handlers, the calls that settle deliveries, the
-- newest first, and the number of messages in the channel `deliveryRoutines`.
pub record Server (W : Type 0) : Type 0 where
  pub world : W
  pub settlements : List Settlement
  pub delivery_routines : ℕ

module _ (W M E : Type 0) where
  abbrev pub ConsumerHandlerFunc : Type 0
  ConsumerHandlerFunc = Action {0, 0, 0} W E Unit

  abbrev pub ConsumerHandler : Type 0
  ConsumerHandler = MessageConsumeContext M → ConsumerHandlerFunc

  abbrev pub ConsumerPipeline : Type 0
  ConsumerPipeline = MessageConsumeContext M → ConsumerHandlerFunc → ConsumerHandlerFunc

  -- The libraries: `Deserialize` of the serializer, `retry.Do` with a number of attempts,
  -- `AggregateWithSeed` of go-linq, `errors.Wrap`, and whether the broker refuses a settlement.
  pub record Libraries : Type 0 where
    pub deserialize : Text → Text → Text → Outcome E M
    pub retry : ℕ → ConsumerHandlerFunc → ConsumerHandlerFunc
    pub aggregate_with_seed :
        List ConsumerPipeline
        → ConsumerHandlerFunc
        → (ConsumerHandlerFunc → ConsumerPipeline → ConsumerHandlerFunc)
        → ConsumerHandlerFunc
    pub wrap_error : E → Text → E
    pub refuses : Settlement → W → Bool

  -- The fields of a consumer that a delivery is handled with; a notification may be nil.
  pub record RabbitMqConsumer : Type 0 where
    pub auto_ack : Bool
    pub handlers : List ConsumerHandler
    pub pipelines : List ConsumerPipeline
    pub is_consumed_notifications : List (Option (Option M → W → W))

abbrev pub retry_attempts : ℕ
retry_attempts = 3

module _ {W M E : Type 0} where
  unfoldable pub connect_handler :
      RabbitMqConsumer W M E → ConsumerHandler W M E → RabbitMqConsumer W M E
  connect_handler r handler = record r { handlers = r.handlers ++ (handler ∷ []) }

  unfoldable pub is_consumed : RabbitMqConsumer W M E → (Option M → W → W) → RabbitMqConsumer W M E
  is_consumed r h = record r {
    is_consumed_notifications = r.is_consumed_notifications ++ (some h ∷ []);
  }

  -- The loop from the last value to the first, which appends each.
  unfoldable pub revers_order : List (ConsumerPipeline W M E) → List (ConsumerPipeline W M E)
  revers_order [] = []
  revers_order (value ∷ values) = revers_order values ++ (value ∷ [])

module _ {W M E : Type 0} (lib : Libraries W M E) where
  abbrev pub decoded : Outcome E M → Outcome E (Option M)
  decoded (ok message) = ok (some message)
  decoded (err e) = ok none
  decoded panic = panic

  -- Nothing stands for nil; an error of the serializer is only logged, and its panic goes on.
  unfoldable pub deserialize_data : Text → Text → Text → Outcome E (Option M)
  unfolding text_eq
  deserialize_data content_type event_type [] = ok none
  deserialize_data content_type event_type (b ∷ body) =
      let content_type =
        if text_eq content_type [] then text "application/json" else content_type in
      if text_eq content_type (text "application/json")
      then decoded (lib.deserialize (b ∷ body) event_type content_type)
      else ok none

  unfoldable pub create_consume_context : Delivery → Outcome E (MessageConsumeContext M)
  unfolding deserialize_data
  create_consume_context delivery =
      bind (deserialize_data delivery.content_type delivery.type delivery.body) λ message. ok (
        new_message_consume_context message delivery.headers delivery.content_type delivery.type
          delivery.timestamp delivery.delivery_tag delivery.message_id delivery.correlation_id)

  -- What is retried: the handler inside the pipelines, if there are any.
  unfoldable pub attempt :
      List (ConsumerPipeline W M E)
      → ConsumerHandler W M E
      → MessageConsumeContext M
      → ConsumerHandlerFunc W M E
  unfolding revers_order
  attempt [] handler context = handler context
  attempt (pipe ∷ pipelines) handler context =
      wrap (λ e. lib.wrap_error e (text "error handling consumer handlers pipeline"))
        (lib.aggregate_with_seed (revers_order (pipe ∷ pipelines)) (handler context)
          (λ next pipe. pipe context next))

  unfoldable pub run_handlers_with_retry :
      RabbitMqConsumer W M E
      → ConsumerHandler W M E
      → MessageConsumeContext M
      → ConsumerHandlerFunc W M E
  unfolding attempt
  run_handlers_with_retry r handler context =
      lib.retry retry_attempts (attempt r.pipelines handler context)

  -- The handlers in turn, up to the first that fails.
  unfoldable pub run_handlers :
      RabbitMqConsumer W M E
      → List (ConsumerHandler W M E)
      → MessageConsumeContext M
      → ConsumerHandlerFunc W M E
  unfolding run_handlers_with_retry
  run_handlers r [] context = pure tt
  run_handlers r (handler ∷ handlers) context =
      run_handlers_with_retry r handler context >> run_handlers r handlers context

  abbrev pub notify : List (Option (Option M → W → W)) → Option M → W → W
  notify [] message w = w
  notify (none ∷ notifications) message w = notify notifications message w
  notify (some notification ∷ notifications) message w =
      notify notifications message (notification message w)

  abbrev pub settle : Settlement → Server W → Server W
  settle settlement s = record s { settlements = settlement ∷ s.settlements }

  -- The functions that `handleReceived` gives to `handle`; a refusal is only logged.
  abbrev pub ack : RabbitMqConsumer W M E → MessageConsumeContext M → ℕ → Server W → Server W
  ack r context tag s =
      let s' = settle (acked tag) s in
      if lib.refuses (acked tag) s.world
      then s'
      else record s' { world = notify r.is_consumed_notifications context.message s.world }

  abbrev pub nack : ℕ → Server W → Server W
  nack tag s = settle (nacked tag) s

  abbrev pub call : Option (Server W → Server W) → Server W → Server W
  call none s = s
  call (some f) s = f s

  abbrev pub in_world : Action {0, 0, 0} W E Unit → Action {0, 0, 0} (Server W) E Unit
  in_world m s = let (r, w) = m s.world in (r, record s { world = w })

  -- After the handlers: `ack` and `nack` may be nil. The result is whether the handlers panicked.
  abbrev pub settled :
      Bool
      → Option (Server W → Server W)
      → Option (Server W → Server W)
      → Outcome {0, 0} E Unit × Server W
      → Outcome {0, 0} E Unit × Server W
  settled auto_ack ack nack (ok a, s) = (ok tt, if auto_ack then s else call ack s)
  settled auto_ack ack nack (err e, s) = (ok tt, if auto_ack then s else call nack s)
  settled auto_ack ack nack (panic, s) = (panic, s)

  unfoldable pub handle :
      RabbitMqConsumer W M E
      → Option (Server W → Server W)
      → Option (Server W → Server W)
      → MessageConsumeContext M
      → Action {0, 0, 0} (Server W) E Unit
  unfolding run_handlers
  handle r ack nack context s =
      settled r.auto_ack ack nack (in_world (run_handlers r r.handlers context) s)

  -- After the context was made: what is given to `handle`.
  abbrev pub handle_context :
      RabbitMqConsumer W M E → ℕ → MessageConsumeContext M → Action {0, 0, 0} (Server W) E Unit
  handle_context r tag context =
      handle r (if r.auto_ack then none else some (ack r context tag))
        (if r.auto_ack then none else some (nack tag)) context

  -- The slot in `deliveryRoutines` is taken before and given back at the end, also after a panic.
  unfoldable pub handle_received :
      RabbitMqConsumer W M E → Delivery → Action {0, 0, 0} (Server W) E Unit
  unfolding create_consume_context handle
  handle_received r delivery s =
      let (result, s') =
        continue (create_consume_context delivery) (handle_context r delivery.delivery_tag)
          (record s { delivery_routines = s.delivery_routines + 1 }) in
      (result, record s' { delivery_routines = s'.delivery_routines - 1 })
