-- ===== src/Rabbitmq/Delivering.antt =====
-- From the producer (rabbitmq_producer.go) to the consumer (rabbitmq_consumer.go): the headers that a
-- message is published with, and what a consumer finds in its delivery.
use go_ecommerce_microservic.Common.{
  ℕ, Bool, true, false, Text, text, text_eq, [], ◌∷◌, ◌≡◌, refl, Option, some, ok, if◌then◌else◌,
  ◌==◌,
}
use go_ecommerce_microservic.Messaging.{
  get, get_string, get_time, Metadata, get_correlation_id, set_correlation_id, get_message_id,
  set_message_id, get_message_name, set_message_name, get_message_type, set_message_type,
  get_message_content_type, set_message_content_type, get_message_created, set_message_created,
}
use go_ecommerce_microservic.Rabbitmq.Producer.{
  RabbitMqProducer, Publishing, from_metadata, or_default, get_metadata, publishing_of,
}
use go_ecommerce_microservic.Rabbitmq.Consumer.{
  Delivery, Libraries, create_consume_context, deserialize_data,
}

module _ {W M E C : Type 0} (r : RabbitMqProducer W M E C) (message : M)
    (meta : Option Metadata) where
  abbrev old : Metadata
  old = from_metadata r meta

  -- The headers of a published message: the id, the time and the correlation id of the caller stay, and
  -- those of the message, or a new id, stand in where the caller has none; the name is that of the
  -- message's type. The header of the message's type holds the content type of the serializer, and the
  -- header of the content type is the caller's.
  pub get_metadata-headers :
      let m = get_metadata r message meta in
      (get_message_id m ≡ or_default r (get_message_id old) (r.messages.ge_message_id message))
      × (get_message_created m ≡ (
          if get_message_created old == 0
          then r.messages.get_created message
          else get_message_created old))
      × (get_correlation_id m ≡ or_default r (get_correlation_id old) r.new_uuid)
      × (get_message_name m ≡ r.messages.snake_name message)
      × (get_message_type m ≡ r.serializer_content_type)
      × (get_message_content_type m ≡ get_message_content_type old)
  unfolding get_metadata set_message_type set_message_content_type get_message_id set_message_id
      get_message_created set_message_created get_correlation_id set_correlation_id set_message_name
      get_message_name get_message_type get_message_content_type text_eq get get_string get_time
  get_metadata-headers =
      by_headers (get_message_id old) (get_message_created old == 0) (get_correlation_id old) refl
        refl refl
    where
      by_headers :
          (id : Text) (no_time : Bool) (correlation_id : Text)
          → get_message_id old ≡ id
          → (get_message_created old == 0) ≡ no_time
          → get_correlation_id old ≡ correlation_id
          → (let m = get_metadata r message meta in
              (get_message_id m ≡ or_default r id (r.messages.ge_message_id message))
              × (get_message_created m
                  ≡ (if no_time then r.messages.get_created message else get_message_created old))
              × (get_correlation_id m ≡ or_default r correlation_id r.new_uuid)
              × (get_message_name m ≡ r.messages.snake_name message)
              × (get_message_type m ≡ r.serializer_content_type)
              × (get_message_content_type m ≡ get_message_content_type old))
      by_headers [] true [] h t c = rw (h, t, c) (refl, refl, refl, refl, refl, refl)
      by_headers [] true (y ∷ ys) h t c = rw (h, t, c) (refl, refl, c, refl, refl, refl)
      by_headers [] false [] h t c = rw (h, t, c) (refl, refl, refl, refl, refl, refl)
      by_headers [] false (y ∷ ys) h t c = rw (h, t, c) (refl, refl, c, refl, refl, refl)
      by_headers (x ∷ xs) true [] h t c = rw (h, t, c) (h, refl, refl, refl, refl, refl)
      by_headers (x ∷ xs) true (y ∷ ys) h t c = rw (h, t, c) (h, refl, c, refl, refl, refl)
      by_headers (x ∷ xs) false [] h t c = rw (h, t, c) (h, refl, refl, refl, refl, refl)
      by_headers (x ∷ xs) false (y ∷ ys) h t c = rw (h, t, c) (h, refl, c, refl, refl, refl)

-- What the broker hands on of a publishing as it is, among others.
pub record IsDelivered (p : Publishing) (d : Delivery) : Type 0 where
  pub same_content_type : d.content_type ≡ p.content_type
  pub same_type : d.type ≡ p.type
  pub same_body : d.body ≡ p.body
  pub same_message_id : d.message_id ≡ p.message_id
  pub same_correlation_id : d.correlation_id ≡ p.correlation_id

deserialize_data-ok :
    {W M E : Type 0} (lib : Libraries W M E) (type : Text) (b : ℕ) (bytes : Text) (message : M)
    → lib.deserialize (b ∷ bytes) type (text "application/json") ≡ ok message
    → deserialize_data lib (text "application/json") type (b ∷ bytes) ≡ ok (some message)
unfolding deserialize_data text_eq
deserialize_data-ok lib type b bytes message codec = rw codec

-- A consumer gets the message that was published, with its id, the type name, and the
-- correlation id of the caller or, where the caller has none, the new one: when the broker hands these
-- properties on as they are, the propagator leaves the header of the correlation id alone, the body is JSON
-- and not empty, and the consumer's serializer reads what the producer's wrote for the message's type name.
pub create_consume_context-publishing_of :
    {W M E C W' E' : Type 0} (r : RabbitMqProducer W M E C) (lib : Libraries W' M E') (message : M)
    (meta : Option Metadata) (b : ℕ) (bytes : Text) (d : Delivery)
    → ((m : Metadata) → get_correlation_id (r.inject m) ≡ get_correlation_id m)
    → lib.deserialize
        (b ∷ bytes)
        (r.messages.get_message_type_name message)
        (text "application/json")
      ≡ ok message
    → IsDelivered
        (publishing_of r message
          (r.inject (get_metadata r message meta))
          (record { data_bytes = b ∷ bytes; content_type = text "application/json" }))
        d
    → create_consume_context lib d
      ≡ ok (record {
        metadata = d.headers;
        content_type = text "application/json";
        message_type = r.messages.get_message_type_name message;
        message_id = r.messages.ge_message_id message;
        created = d.timestamp;
        tag = d.delivery_tag;
        correlation_id = or_default r (get_correlation_id (from_metadata r meta)) r.new_uuid;
        message = some message;
      })
unfolding create_consume_context publishing_of
create_consume_context-publishing_of r lib message meta b bytes d injected codec delivered =
    rw
      (
        create_consume_context,
        delivered.same_content_type,
        delivered.same_type,
        delivered.same_body,
        deserialize_data-ok lib (r.messages.get_message_type_name message) b bytes message codec,
        delivered.same_message_id,
        delivered.same_correlation_id,
        injected (get_metadata r message meta),
        (get_metadata-headers r message meta).2,
      )
      refl
