-- ===== src/Persistence/Tests.antt =====
-- A table in memory, for the theorems on postgres_message_service.go.
use go_ecommerce_microservic.Common.{
  ℕ, text, List, [], ◌∷◌, ◌++◌, ◌≡◌, refl, none, some, ok, err, panic,
}
use go_ecommerce_microservic.HttpErrors.Chain.{leaf}
use go_ecommerce_microservic.Persistence.{
  StoreMessage, Gorm, Envelopes, MessagePersistenceService, outbox, new_postgres_message_service,
  add_message_core,
}

abbrev Table : Type 0
Table = List StoreMessage

-- A database that keeps what is created.
abbrev in_memory : Gorm Table
in_memory = record {
  create = λ sm rows. (ok tt, rows ++ (sm ∷ []));
  updates = λ sm rows. (ok tt, rows);
  find = λ id rows. (err (leaf (text "not asked")), rows);
  find_where = λ p rows. (ok rows, rows);
  delete = λ sm id rows. (ok tt, rows);
  delete_where = λ p rows. (ok tt, rows);
}

abbrev service : MessagePersistenceService Table ℕ
service = record {
  db = in_memory;
  transaction = none;
  show_id = λ id. text "id";
  parse_id = λ t. ok 7;
  now = 5;
  message_serializer = none;
}

-- A service as the constructor makes it cannot add a message.
abbrev envelopes : Envelopes ℕ
envelopes = record {
  ge_message_id = λ n. text "7";
  get_message_full_type_name = λ n. text "created";
}

add_message_core_test :
    add_message_core
      (new_postgres_message_service in_memory none (λ id. text "id") (λ t. ok 7) 5)
      envelopes
      (some 1)
      outbox
      []
    ≡ (panic, [])
unfolding add_message_core new_postgres_message_service
add_message_core_test = refl
