-- ===== src/Rabbitmq/Tests.antt =====
-- A small broker, for the theorems on internal/pkg/rabbitmq: messages, errors and the world are numbers.
use go_ecommerce_microservic.Common.{
  ℕ, zero, suc, ◌+◌, ◌≡◌, refl, Bool, ◌||◌, true, false, Text, text, List, [], ◌∷◌, none, some,
  Outcome, ok, err, panic, if◌then◌else◌, ◌==◌,
}
use go_ecommerce_microservic.Messaging.{
  get_message_id, get_correlation_id, get_message_created, get_message_name, get_message_type,
  get_message_content_type,
}
use go_ecommerce_microservic.Rabbitmq.{
  Messages, RabbitMqProducerConfiguration, new_default_rabbit_mq_producer_configuration,
}
use go_ecommerce_microservic.Rabbitmq.Consumer.{
  Delivery, Server, acked, Libraries, RabbitMqConsumer, ConsumerHandler, ConsumerHandlerFunc,
  ConsumerPipeline, create_consume_context, handle_received,
}
use go_ecommerce_microservic.Rabbitmq.Account.{done, failed, crashed, seen, IsDocumented}
use go_ecommerce_microservic.Rabbitmq.Handling.{handle_received-served}
use go_ecommerce_microservic.Rabbitmq.Producer.{
  RabbitMqProducer, Publishing, connection_is_nil, get_metadata, publishing_of, publish_message,
}
use go_ecommerce_microservic.Rabbitmq.Delivering.{
  IsDelivered, get_metadata-headers, create_consume_context-publishing_of,
}
use go_ecommerce_microservic.Rabbitmq.Workers.{
  Workers, Reachable, initial, after, start, new_workers, IsBounded, Reachable-IsBounded,
  Reachable-handling_after_stop,
}
use go_ecommerce_microservic.Rabbitmq.Starting.{
  RabbitMqConsumerConfiguration, ConsumerConnection, new_default_rabbit_mq_consumer_configuration,
  start_consuming,
}
use go_ecommerce_microservic.Rabbitmq.Routing.{
  Binding, same_binding, IsBroker, start_consuming-exchange_of,
}

abbrev Func : Type 0
Func = ConsumerHandlerFunc ℕ ℕ ℕ

abbrev Result : Type 0
Result = Outcome {0, 0} ℕ Unit × ℕ

abbrev on_error : Func → Result → Result
on_error f (ok a, w) = (ok a, w)
on_error f (err e, w) = f w
on_error f (panic, w) = (panic, w)

abbrev retry : ℕ → Func → Func
retry zero m w = (ok tt, w)
retry (suc zero) m w = m w
retry (suc (suc n)) m w = on_error (retry (suc n) m) (m w)

abbrev fold_left :
    List (ConsumerPipeline ℕ ℕ ℕ) → Func → (Func → ConsumerPipeline ℕ ℕ ℕ → Func) → Func
fold_left [] seed f = seed
fold_left (pipe ∷ pipelines) seed f = fold_left pipelines (f seed pipe) f

-- The body of the message `n` is the text of the one number `n`.
abbrev read_body : Text → Outcome ℕ ℕ
read_body [] = err 0
read_body (n ∷ body) = ok n

abbrev lib : Libraries ℕ ℕ ℕ
lib = record {
  deserialize = λ body type content_type. read_body body;
  retry = retry;
  aggregate_with_seed = fold_left;
  wrap_error = λ e message. e + 100;
  refuses = λ settlement w. false;
}

on_error-done :
    (f : Func) (r : Result) (w : ℕ) → seen r ≡ (done, w) → seen (on_error f r) ≡ (done, w)
on_error-done f (ok a, w') w h = h
on_error-done f (err e, w') w h = cc
on_error-done f (panic, w') w h = cc

on_error-crashed :
    (f : Func) (r : Result) (w : ℕ) → seen r ≡ (crashed, w) → seen (on_error f r) ≡ (crashed, w)
on_error-crashed f (ok a, w') w h = cc
on_error-crashed f (err e, w') w h = cc
on_error-crashed f (panic, w') w h = h

on_error-failed :
    (f : Func) (r : Result) (w : ℕ) → seen r ≡ (failed, w) → seen (on_error f r) ≡ seen (f w)
on_error-failed f (ok a, w') w h = cc
on_error-failed f (err e, w') w h = cc
on_error-failed f (panic, w') w h = cc

retry-done :
    (n : ℕ) (m : Func) (w w' : ℕ) → seen (m w) ≡ (done, w') → seen (retry (suc n) m w) ≡ (done, w')
retry-done zero m w w' h = h
retry-done (suc n) m w w' h = on_error-done (retry (suc n) m) (m w) w' h

retry-crashed :
    (n : ℕ) (m : Func) (w w' : ℕ)
    → seen (m w) ≡ (crashed, w')
    → seen (retry (suc n) m w) ≡ (crashed, w')
retry-crashed zero m w w' h = h
retry-crashed (suc n) m w w' h = on_error-crashed (retry (suc n) m) (m w) w' h

lib-IsDocumented : IsDocumented lib
lib-IsDocumented = record {
  retry_done = retry-done;
  retry_crashed = retry-crashed;
  retry_last = λ m w w' h. h;
  retry_again = λ n m w w' h. on_error-failed (retry (suc n) m) (m w) w' h;
  aggregate_nil = λ seed f. refl;
  aggregate_cons = λ pipe pipelines seed f. refl;
}

-- The first call of the handler fails; the pipeline counts its calls.
abbrev handler : ConsumerHandler ℕ ℕ ℕ
handler context w = (if w == 1 then err 7 else ok tt, w + 10)

abbrev pipeline : ConsumerPipeline ℕ ℕ ℕ
pipeline context next w = next (w + 1)

abbrev consumer : RabbitMqConsumer ℕ ℕ ℕ
consumer = record {
  auto_ack = false;
  handlers = handler ∷ [];
  pipelines = pipeline ∷ [];
  is_consumed_notifications = some (λ message w. w + 1000) ∷ none ∷ [];
}

abbrev delivery : Delivery
delivery = record {
  headers = none;
  content_type = [];
  type = text "created";
  body = 5 ∷ [];
  timestamp = 3;
  delivery_tag = 42;
  message_id = text "id";
  correlation_id = [];
}

abbrev server : Server ℕ
server = record { world = 0; settlements = []; delivery_routines = 0 }

handle_received-served_example :
    seen (handle_received lib consumer delivery server)
    ≡ (done, record { world = 1022; settlements = acked 42 ∷ []; delivery_routines = 0 })
unfolding create_consume_context
handle_received-served_example =
    handle_received-served lib lib-IsDocumented consumer delivery server

abbrev messages : Messages ℕ
messages = record {
  ge_message_id = λ n. text "message";
  get_created = λ n. 9;
  get_message_type_name = λ n. text "*Message";
  base_type = λ n. text "Created";
  snake_name = λ n. text "created";
}

abbrev producer : RabbitMqProducer ℕ ℕ ℕ ℕ
producer = record {
  messages = messages;
  serialize = λ n. ok (record { data_bytes = n ∷ []; content_type = text "application/json" });
  serializer_content_type = text "application/json";
  connection = none;
  producers_configurations = λ key. none;
  is_produced_notifications = [];
  new_uuid = text "uuid";
  inject = λ m. m;
  now = 8;
}

get_metadata-headers_example :
    let m = get_metadata producer 5 none in
    (get_message_id m ≡ text "message")
    × (get_message_created m ≡ 9)
    × (get_correlation_id m ≡ text "uuid")
    × (get_message_name m ≡ text "created")
    × (get_message_type m ≡ text "application/json")
    × (get_message_content_type m ≡ [])
unfolding get_message_id get_message_created get_correlation_id get_message_content_type
get_metadata-headers_example = get_metadata-headers producer 5 none

publish_message_test : publish_message producer 5 none 0 ≡ (err connection_is_nil, 0)
unfolding publish_message
publish_message_test = refl

abbrev published : Publishing
published =
    publishing_of producer 5 (producer.inject (get_metadata producer 5 none))
      (record { data_bytes = 5 ∷ []; content_type = text "application/json" })

abbrev delivered : Delivery
delivered = record {
  headers = some published.headers;
  content_type = published.content_type;
  type = published.type;
  body = published.body;
  timestamp = published.timestamp;
  delivery_tag = 1;
  message_id = published.message_id;
  correlation_id = published.correlation_id;
}

delivered-IsDelivered : IsDelivered published delivered
delivered-IsDelivered = record {
  same_content_type = refl;
  same_type = refl;
  same_body = refl;
  same_message_id = refl;
  same_correlation_id = refl;
}

create_consume_context-publishing_of_example :
    create_consume_context lib delivered
    ≡ ok (record {
      metadata = delivered.headers;
      content_type = text "application/json";
      message_type = text "*Message";
      message_id = text "message";
      created = 8;
      tag = 1;
      correlation_id = text "uuid";
      message = some 5;
    })
unfolding get_correlation_id publishing_of
create_consume_context-publishing_of_example =
    create_consume_context-publishing_of producer lib 5 none 5 [] delivered (λ m. refl) refl
      delivered-IsDelivered

Reachable-IsBounded_example : IsBounded 2 (record new_workers { idle = 0 + 2; closed = false })
Reachable-IsBounded_example = Reachable-IsBounded 2 (after initial (start new_workers))

Reachable-handling_after_stop_example :
    (w : Workers) × Reachable 1 w × (w.closed ≡ true) × (w.handling ≡ 1)
Reachable-handling_after_stop_example = Reachable-handling_after_stop 0

-- A broker that only keeps the bindings.
abbrev recording : ConsumerConnection (List Binding) ℕ ℕ
recording = record {
  channel = λ w. (ok 1, w);
  qos = λ channel n w. (ok tt, w);
  exchange_declare = λ channel name options no_wait w. (ok tt, w);
  queue_declare = λ channel name options no_wait w. (ok tt, ([], name, name) ∷ w);
  queue_bind = λ channel queue key exchange no_wait w. (ok tt, (exchange, key, queue) ∷ w);
  consume = λ channel queue id auto_ack exclusive no_local no_wait w. (ok tt, w);
}

abbrev recorded : List Binding → Binding → Bool
recorded [] b = false
recorded (b' ∷ w) b = same_binding b' b || recorded w b

recording-IsBroker : IsBroker recording recorded
recording-IsBroker = record {
  opened = λ w. (1, w, refl, λ b. refl);
  limited = λ channel n w. (w, refl, λ b. refl);
  exchange_declared = λ channel name options no_wait w. (w, refl, λ b. refl);
  queue_declared = λ channel name options no_wait w. (([], name, name) ∷ w, refl, λ b. refl);
  bound = λ channel queue key exchange no_wait w. ((exchange, key, queue) ∷ w, refl, λ b. refl);
  consumed = λ channel queue id auto_ack exclusive no_local no_wait w. (w, refl, λ b. refl);
}

-- The configurations for a message, with names that are not those of its type.
abbrev consumer_options : RabbitMqConsumerConfiguration
consumer_options =
    let o = new_default_rabbit_mq_consumer_configuration messages 5 in
    record o {
      binding_routing_key = text "key";
      queue_options = record o.queue_options { name = text "queue" };
      exchange_options = record o.exchange_options { name = text "exchange" };
    }

abbrev producer_options : RabbitMqProducerConfiguration
producer_options =
    let o = new_default_rabbit_mq_producer_configuration messages 5 in
    record o {
      routing_key = text "key";
      exchange_options = record o.exchange_options { name = text "exchange" };
    }

abbrev configured : RabbitMqProducer ℕ ℕ ℕ ℕ
configured = record producer { producers_configurations = λ key. some producer_options }

start_consuming-exchange_of_example :
    let started = start_consuming consumer_options (text "created") (some recording) [] in
    (started.0 ≡ ok tt)
    × ((b : Binding)
        → recorded started.1 b ≡ (
            same_binding (text "exchange", text "key", text "queue") b
            || (same_binding ([], text "queue", text "queue") b || false)))
start_consuming-exchange_of_example =
    start_consuming-exchange_of configured 5 recording recorded [] consumer_options producer_options
      (text "created") _ _ _ _ _ _ recording-IsBroker refl refl refl refl refl refl
