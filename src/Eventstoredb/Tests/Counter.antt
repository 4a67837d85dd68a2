-- ===== src/Eventstoredb/Tests/Counter.antt =====
-- An aggregate for tests: events carry a number, and `When` adds them up and refuses 0. It stands for
-- no code of the repository.
use go_ecommerce_microservic.Common.{
  ℕ, ◌+◌, ◌≡◌, refl, false, text, List, [], ◌∷◌, Option, none, some, ◌⊎◌, inl, inr, ok, err, arith,
  ◌==◌, if◌then◌else◌,
}
use go_ecommerce_microservic.EventSourcing.Error.{plain, invalid_event_type}
use go_ecommerce_microservic.EventSourcing.Version
use go_ecommerce_microservic.EventSourcing.Event.{DomainEvent, EventBase}
use go_ecommerce_microservic.EventSourcing.Aggregate.{EventSourcedAggregateRoot, WhenFunc}
use go_ecommerce_microservic.EventSourcing.Aggregate.Frame.{IsFramed}
use go_ecommerce_microservic.Eventstoredb.Serializer.{Serializers}
use go_ecommerce_microservic.Eventstoredb.AggregateStore.Sending.{IsFaithful}

abbrev pub Added : Type 0
Added = DomainEvent ℕ

abbrev pub Total : Type 0
Total = EventSourcedAggregateRoot ℕ ℕ

abbrev pub when_added : WhenFunc ℕ ℕ
when_added e a =
    if e.payload == 0
    then (err (plain invalid_event_type), a)
    else (ok tt, record a { state = a.state + e.payload })

pub when_added-IsFramed : IsFramed when_added
when_added-IsFramed = record {
  original = λ e a. ground arith;
  current = λ e a. ground arith;
  uncommitted = λ e a. ground arith;
  id = λ e a b eb i. ground arith;
}

abbrev pub empty_total : Total
empty_total = record {
  entity = record { id = 7; entity_type = text "Total"; created_at = 1; updated_at = 0 };
  original_version = Version.no_stream;
  current_version = Version.no_stream;
  uncommitted_events = [];
  state = 0;
}

-- An event with the given id and payload, as a constructor makes it.
abbrev pub added_event : ℕ → ℕ → Added
added_event id amount = record {
  base = some (record {
    event_id = id;
    event_type = text "Added";
    occurred_on = 1;
    aggregate_id = 0;
    aggregate_sequence_number = Version.no_stream;
  });
  payload = amount;
}

abbrev pub write : Added → List ℕ
write e = elim e.base [
  | none ↦ e.payload ∷ []
  | some b ↦
      e.payload ∷ b.event_id ∷ b.occurred_on ∷ b.aggregate_id ∷ b.aggregate_sequence_number
      ∷ b.event_type
]

abbrev read : List ℕ → ℕ ⊎ Added
read (p ∷ []) = inr (record { base = none; payload = p })
read (p ∷ i ∷ t ∷ a ∷ n ∷ name) = inr (record {
  base = some (record {
    event_id = i;
    event_type = name;
    occurred_on = t;
    aggregate_id = a;
    aggregate_sequence_number = n;
  });
  payload = p;
})
read _ = inl 1

abbrev pub numbers : Serializers ℕ (Unit {0})
numbers = record {
  serialize = λ e. inr (write e, text "application/json");
  deserialize = λ bytes event_type content_type. read bytes;
  serialize_metadata = λ m. inr [];
  deserialize_metadata = λ bytes. inr tt;
  get_type_name = λ e. text "Added";
  decode_fails = λ e. false;
}

read-write :
    (base : Option EventBase) (p : ℕ)
    → let e : Added = record { base = base; payload = p } in read (write e) ≡ inr e
read-write none p = refl
read-write (some b) p = refl

pub numbers-IsFaithful : IsFaithful numbers write tt []
numbers-IsFaithful = record {
  decodes = λ e. refl;
  user_type = λ e. refl;
  serialized = λ e. refl;
  deserialized = λ e. read-write e.base e.payload;
  meta_serialized = refl;
  meta_deserialized = refl;
}
