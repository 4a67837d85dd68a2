-- ===== src/Rabbitmq/Routing.antt =====
-- That what a producer publishes reaches the queue that a consumer declares, by their
-- configurations (rabbitmq_producer.go, rabbitmq_consumer.go).
use go_ecommerce_microservic.Common.{
  ℕ, ◌*◌, Bool, ◌&&◌, ◌||◌, Text, text_eq, [], ◌∷◌, ◌≡◌, refl, sym, ap, ◌∙◌, some, ok,
}
use go_ecommerce_microservic.Rabbitmq.{
  ExchangeOptions, QueueOptions, RabbitMqProducerConfiguration, get_topic_or_exchange_name,
  get_routing_key,
}
use go_ecommerce_microservic.Rabbitmq.Producer.{
  RabbitMqProducer, or_default, exchange_of, routing_key_of,
}
use go_ecommerce_microservic.Rabbitmq.Starting.{
  RabbitMqConsumerConfiguration, name_or, ConsumerConnection, consumer_exchange,
  consumer_routing_key, consumer_queue, start_consuming,
}

abbrev pub Binding : Type 0
Binding = Text × Text × Text

abbrev pub same_binding : Binding → Binding → Bool
same_binding (exchange, key, queue) (exchange', key', queue') =
    text_eq exchange exchange' && text_eq key key' && text_eq queue queue'

-- A broker that refuses nothing: which bindings it has, of an exchange, a routing key and a queue. Every
-- queue that is declared is bound to the default exchange, whose name is empty, by its own name.
pub record IsBroker {W E C : Type 0} (connection : ConsumerConnection W E C)
    (is_bound : W → Binding → Bool) : Type 0 where
  pub opened :
      (w : W)
      → (channel : C) × (w' : W) × (connection.channel w ≡ (ok channel, w'))
        × ((b : Binding) → is_bound w' b ≡ is_bound w b)
  pub limited :
      (channel : C) (n : ℕ) (w : W)
      → (w' : W) × (connection.qos channel n w ≡ (ok tt, w'))
        × ((b : Binding) → is_bound w' b ≡ is_bound w b)
  pub exchange_declared :
      (channel : C) (name : Text) (options : ExchangeOptions) (no_wait : Bool) (w : W)
      → (w' : W) × (connection.exchange_declare channel name options no_wait w ≡ (ok tt, w'))
        × ((b : Binding) → is_bound w' b ≡ is_bound w b)
  pub queue_declared :
      (channel : C) (name : Text) (options : QueueOptions) (no_wait : Bool) (w : W)
      → (w' : W) × (connection.queue_declare channel name options no_wait w ≡ (ok tt, w'))
        × ((b : Binding) → is_bound w' b ≡ (same_binding ([], name, name) b || is_bound w b))
  pub bound :
      (channel : C) (queue key exchange : Text) (no_wait : Bool) (w : W)
      → (w' : W) × (connection.queue_bind channel queue key exchange no_wait w ≡ (ok tt, w'))
        × ((b : Binding) → is_bound w' b ≡ (same_binding (exchange, key, queue) b || is_bound w b))
  pub consumed :
      (channel : C) (queue id : Text) (auto_ack exclusive no_local no_wait : Bool) (w : W)
      → (w' : W) × (connection.consume channel queue id auto_ack exclusive no_local no_wait w
          ≡ (ok tt, w'))
        × ((b : Binding) → is_bound w' b ≡ is_bound w b)

module _ {W E C : Type 0} (connection : ConsumerConnection W E C) (is_bound : W → Binding → Bool)
    (broker : IsBroker connection is_bound) (options : RabbitMqConsumerConfiguration) (snake : Text)
    (w : W) where
  start_consuming-bound :
      let r = start_consuming options snake (some connection) w in
      let queue = consumer_queue options snake in
      let binding : Binding =
        (consumer_exchange options snake, consumer_routing_key options snake, queue) in
      (r.0 ≡ ok tt)
      × ((b : Binding)
          → is_bound r.1 b
            ≡ (same_binding binding b || (same_binding ([], queue, queue) b || is_bound w b)))
  unfolding start_consuming
  start_consuming-bound =
      let o = options in
      let ex = consumer_exchange o snake in
      let key = consumer_routing_key o snake in
      let queue = consumer_queue o snake in
      let a = broker.opened w in
      let b = broker.limited a.0 (o.concurrency_limit * o.prefetch_count) a.1 in
      let c = broker.exchange_declared a.0 ex o.exchange_options o.no_wait b.0 in
      let d = broker.queue_declared a.0 queue o.queue_options o.no_wait c.0 in
      let e = broker.bound a.0 queue key ex o.no_wait d.0 in
      let f =
        broker.consumed a.0 queue o.consumer_id o.auto_ack o.queue_options.exclusive o.no_local
          o.no_wait e.0 in
      rw (a.2, b.1, c.1, d.1, e.1, f.1)
        (
          refl,
          λ x.
              f.2 x
              ∙ e.2 x
              ∙ ap (λ l. same_binding (ex, key, queue) x || l)
                  (d.2 x
                    ∙ ap (λ l. same_binding ([], queue, queue) x || l) (c.2 x ∙ b.2 x ∙ a.3 x)),
        )

-- Whether a binding is there once these are added.
abbrev bound_by : {W : Type 0} → (W → Binding → Bool) → W → Binding → Text → Text → Text → Bool
bound_by is_bound w b exchange key queue =
    same_binding (exchange, key, queue) b || (same_binding ([], queue, queue) b || is_bound w b)

configured_names :
    {W M E C : Type 0} (r : RabbitMqProducer W M E C) (message : M)
    (configuration : RabbitMqProducerConfiguration) (exchange key : Text)
    → r.producers_configurations (r.messages.base_type message) ≡ some configuration
    → configuration.exchange_options.name ≡ exchange
    → configuration.routing_key ≡ key
    → (exchange_of r message []
        ≡ or_default r exchange (get_topic_or_exchange_name r.messages message))
      × (routing_key_of r message ≡ or_default r key (get_routing_key r.messages message))
configured_names r message configuration exchange key configured pe pk = (
  rw configured (ap (λ n. or_default r n (get_topic_or_exchange_name r.messages message)) pe),
  rw configured (ap (λ n. or_default r n (get_routing_key r.messages message)) pk),
)

-- When a consumer whose configuration names its exchange, routing key and queue starts, on a broker that
-- refuses nothing, then its queue is bound to the very exchange and by the very routing key with which a
-- producer publishes whose configuration for the message has these two names; beside that and the queue's binding
-- to the default exchange nothing else is bound that was not before.
pub start_consuming-exchange_of :
    {W M E C W' E' C' : Type 0} (r : RabbitMqProducer W' M E' C') (message : M)
    (connection : ConsumerConnection W E C) (is_bound : W → Binding → Bool) (w : W)
    (options : RabbitMqConsumerConfiguration) (configuration : RabbitMqProducerConfiguration)
    (snake exchange key queue : Text) (e k q : ℕ)
    → IsBroker connection is_bound
    → r.producers_configurations (r.messages.base_type message) ≡ some configuration
    → configuration.exchange_options.name ≡ e ∷ exchange
    → configuration.routing_key ≡ k ∷ key
    → options.exchange_options.name ≡ e ∷ exchange
    → options.binding_routing_key ≡ k ∷ key
    → options.queue_options.name ≡ q ∷ queue
    → let started = start_consuming options snake (some connection) w in
      (started.0 ≡ ok tt)
      × ((b : Binding)
          → is_bound started.1 b ≡ (
              same_binding (exchange_of r message [], routing_key_of r message, q ∷ queue) b
              || (same_binding ([], q ∷ queue, q ∷ queue) b || is_bound w b)))
start_consuming-exchange_of r message connection is_bound w options configuration snake exchange key
      queue e k q broker configured pe pk oe ok_ oq =
    let bound = start_consuming-bound connection is_bound broker options snake w in
    let ex = consumer_exchange options snake in
    let rk = consumer_routing_key options snake in
    let published =
      configured_names r message configuration (e ∷ exchange) (k ∷ key) configured pe pk in
    let p : ex ≡ exchange_of r message [] = ap (λ n. name_or n snake) oe ∙ sym published.0 in
    let p' : rk ≡ routing_key_of r message = ap (λ n. name_or n snake) ok_ ∙ sym published.1 in
    let p'' : consumer_queue options snake ≡ q ∷ queue = ap (λ n. name_or n snake) oq in
    (
      bound.0,
      λ b.
          bound.1 b
          ∙ ap (λ x. bound_by is_bound w b x rk (consumer_queue options snake)) p
          ∙ ap
              (λ x.
                bound_by is_bound w b (exchange_of r message []) x (consumer_queue options snake))
              p'
          ∙ ap (λ x. bound_by is_bound w b (exchange_of r message []) (routing_key_of r message) x)
              p'',
    )
