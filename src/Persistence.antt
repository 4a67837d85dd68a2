-- ===== src/Persistence.antt =====
-- internal/pkg/core/messaging/persistmessage and internal/pkg/postgresmessaging/messagepersistence/
-- postgres_message_service.go: the messages that are stored before they are sent. `W` is the database's
-- state; the calls of gorm, the texts of ids and the parsing of them are parameters. Logs are left out.
mod Tests
use go_ecommerce_microservic.Common.{
  ℕ, ◌+◌, Bool, true, false, Text, text, ◌++◌, ◌==◌, List, Option, none, some, Outcome, ok, err,
  panic, Action, pure, lift, wrap, ◌>>=◌, ◌>>◌,
}
use go_ecommerce_microservic.HttpErrors.Chain.{GoError, leaf}
use go_ecommerce_microservic.HttpErrors.CustomErrors.{
  new_conflict_error_wrap, new_internal_server_error_wrap, new_not_found_error_wrap,
}
use go_ecommerce_microservic.Rabbitmq.Producer.{EventSerializationResult}

-- `MessageDeliveryType` and `MessageStatus`
abbrev pub outbox : ℕ
outbox = 1

abbrev pub inbox : ℕ
inbox = 2

abbrev pub internal : ℕ
internal = 4

abbrev pub stored : ℕ
stored = 1

abbrev pub processed : ℕ
processed = 2

pub record StoreMessage : Type 0 where
  pub id : ℕ
  pub data_type : Text
  pub data_text : Text
  pub created_at : ℕ
  pub retry_count : ℕ
  pub message_status : ℕ
  pub delivery_type : ℕ

unfoldable pub new_store_message : ℕ → ℕ → Text → Text → ℕ → StoreMessage
new_store_message now id data_type data_text delivery_type = record {
  id = id;
  data_type = data_type;
  data_text = data_text;
  created_at = now;
  retry_count = 0;
  message_status = stored;
  delivery_type = delivery_type;
}

abbrev pub change_message_state : StoreMessage → ℕ → StoreMessage
change_message_state sm message_status = record sm { message_status = message_status }

abbrev pub increase_retry : StoreMessage → StoreMessage
increase_retry sm = record sm { retry_count = sm.retry_count + 1 }

-- What the service asks of gorm. `Find` gives the zero value where there is no row. What `Where` makes of a Go
-- function as its condition gorm does not document: nothing is said of `find_where` and `delete_where`.
pub record Gorm (W : Type 0) : Type 0 where
  pub create : StoreMessage → Action {0, 0, 0} W GoError Unit
  pub updates : StoreMessage → Action {0, 0, 0} W GoError Unit
  pub find : ℕ → Action W GoError StoreMessage
  pub find_where : (StoreMessage → Bool) → Action W GoError (List StoreMessage)
  pub delete : StoreMessage → ℕ → Action {0, 0, 0} W GoError Unit
  pub delete_where : (StoreMessage → Bool) → Action {0, 0, 0} W GoError Unit

-- What the service asks of the `IMessage` in an envelope.
pub record Envelopes (M : Type 0) : Type 0 where
  pub ge_message_id : M → Text
  pub get_message_full_type_name : M → Text

-- The service, with the transaction of the context that is given to its methods, if there is one.
-- `show_id` is `String()` of an id, and `parse_id` is `uuid.FromString`.
pub record MessagePersistenceService (W M : Type 0) : Type 0 where
  pub db : Gorm W
  pub transaction : Option (Gorm W)
  pub show_id : ℕ → Text
  pub parse_id : Text → Outcome GoError ℕ
  pub now : ℕ
  pub message_serializer : Option (M → Outcome GoError EventSerializationResult)

abbrev pub or_db : {W : Type 0} → Option (Gorm W) → Gorm W → Gorm W
or_db none db = db
or_db (some transaction) db = transaction

module _ {W M : Type 0} (m : MessagePersistenceService W M) where
  abbrev pub with_tx_if_exists : Gorm W
  with_tx_if_exists = or_db m.transaction m.db

  abbrev pub message_not_found : ℕ → GoError → GoError
  message_not_found id e =
      new_not_found_error_wrap (some e)
        (text "storeMessage with id `" ++ (m.show_id id ++ text "` not found in the database"))

  unfoldable pub add : StoreMessage → Action {0, 0, 0} W GoError Unit
  add store_message =
      wrap (λ e. new_conflict_error_wrap (some e) (text "storeMessage already exists"))
        (with_tx_if_exists.create store_message)

  unfoldable pub update : StoreMessage → Action {0, 0, 0} W GoError Unit
  update store_message =
      wrap
        (λ e. new_internal_server_error_wrap (some e) (text "error in updating the storeMessage"))
        (with_tx_if_exists.updates store_message)

  -- The transaction is not used.
  unfoldable pub get_by_id : ℕ → Action W GoError StoreMessage
  get_by_id id = wrap (message_not_found id) (m.db.find id)

  unfoldable pub change_state : ℕ → ℕ → Action {0, 0, 0} W GoError Unit
  unfolding get_by_id update
  change_state message_id status =
      wrap (message_not_found message_id) (get_by_id message_id) >>= λ store_message.
      update (record store_message { message_status = status })

  unfoldable pub get_by_filter : (StoreMessage → Bool) → Action W GoError (List StoreMessage)
  get_by_filter predicate = with_tx_if_exists.find_where predicate

  unfoldable pub get_all_active : Action W GoError (List StoreMessage)
  get_all_active = with_tx_if_exists.find_where λ sm. sm.message_status == stored

  -- An error comes with `false`.
  unfoldable pub remove : StoreMessage → Action W GoError Bool
  unfolding get_by_id
  remove store_message =
      let id = store_message.id in
      wrap (message_not_found id) (get_by_id id) >>= λ found.
      wrap
        (λ e. new_internal_server_error_wrap (some e) (
          text "error in deleting storeMessage with id `"
          ++ (m.show_id id ++ text "` in the database")))
        (with_tx_if_exists.delete found id)
      >>= λ _. pure true

  unfoldable pub cleanup_messages : Action {0, 0, 0} W GoError Unit
  cleanup_messages = with_tx_if_exists.delete_where λ sm. sm.message_status == processed

  -- A method of a nil serializer panics.
  abbrev pub serialized :
      Option (M → Outcome GoError EventSerializationResult)
      → M
      → Outcome GoError EventSerializationResult
  serialized none message = panic
  serialized (some serialize_envelop) message = serialize_envelop message

  -- The message of an envelope may be nil. Every message is an `IMessage`, so that its id is its own.
  unfoldable pub add_message_core : Envelopes M → Option M → ℕ → Action {0, 0, 0} W GoError Unit
  unfolding add new_store_message
  add_message_core envelopes none delivery_type =
      lift (err (leaf (text "messageEnvelope.Message is nil")))
  add_message_core envelopes (some message) delivery_type =
      lift (serialized m.message_serializer message) >>= λ result.
      lift (m.parse_id (envelopes.ge_message_id message)) >>= λ uuid_id. add (
        new_store_message m.now uuid_id (envelopes.get_message_full_type_name message)
          result.data_bytes delivery_type)

  -- `Process`, `ProcessAll`, `AddPublishMessage` and `AddReceivedMessage` are not implemented.
  abbrev pub not_implemented : Action {0, 0, 0} W GoError Unit
  not_implemented = lift panic

  unfoldable pub process : Text → Action {0, 0, 0} W GoError Unit
  process message_id = not_implemented

  unfoldable pub process_all : Action {0, 0, 0} W GoError Unit
  process_all = not_implemented

  unfoldable pub add_publish_message : Option M → Action {0, 0, 0} W GoError Unit
  add_publish_message message_envelope = not_implemented

  unfoldable pub add_received_message : Option M → Action {0, 0, 0} W GoError Unit
  add_received_message message_envelope = not_implemented

-- The constructor sets no serializer.
unfoldable pub new_postgres_message_service :
    {W M : Type 0}
    → Gorm W
    → Option (Gorm W)
    → (ℕ → Text)
    → (Text → Outcome GoError ℕ)
    → ℕ
    → MessagePersistenceService W M
new_postgres_message_service db transaction show_id parse_id now = record {
  db = db;
  transaction = transaction;
  show_id = show_id;
  parse_id = parse_id;
  now = now;
  message_serializer = none;
}
