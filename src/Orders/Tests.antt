-- ===== src/Orders/Tests.antt =====
-- Runs of internal/services/orderservice/internal/orders, and the theorems about it at one input. Prices
-- are whole numbers here.
use go_ecommerce_microservic.Common.{
  ℕ, ◌+◌, ◌*◌, ◌≡◌, refl, false, text, List, [], ◌∷◌, some, inl, ok, err, panic, Action, map, ◌>>◌,
  wrap,
}
use go_ecommerce_microservic.EventSourcing.Error.{Error, Cause, Layer, with_layer}
use go_ecommerce_microservic.EventSourcing.Version
use go_ecommerce_microservic.EventSourcing.Event.{StreamEvent}
use go_ecommerce_microservic.EventSourcing.Aggregate.{
  exists_event, add_domain_events, apply, load_from_history,
}
use go_ecommerce_microservic.Eventstoredb.Serializer.{Serializers}
use go_ecommerce_microservic.Eventstoredb.Tests.Memory.{memory}
use go_ecommerce_microservic.Orders.Items.{
  Float64, ShopItem, configured, to_dto, create_new_shop_item,
}
use go_ecommerce_microservic.Orders.Order.{
  Draws, Order, OrderEvent, OrderPayload, order_created, new_order, new_empty_aggregate, zero_order,
  update_shopping_card, total_price, when, is_empty,
}
use go_ecommerce_microservic.Orders.Order.Validating.{
  failure, first_broken, rules, new_order-failure, update_shopping_card-panics,
}
use go_ecommerce_microservic.Orders.Order.Rebuilding.{new_order-fields, new_order-replay}
use go_ecommerce_microservic.Orders.Creating.{CreateOrder, handle, handle-invalid}
use go_ecommerce_microservic.Orders.Projection.{
  OrderReadModel, OrderCreatedMessage, process_event, to_order_read_dto,
}
use go_ecommerce_microservic.Orders.Projection.Agreement.{Agrees, process_event-Agrees}

abbrev whole : Float64 ℕ
whole = record { zero_float = 0; add = λ a b. a + b; mul = λ a b. a * b; of_uint64 = λ n. n }

abbrev draws : Draws
draws = record { base_created_at = 10; event_id = 11; occurred_on = 12 }

abbrev items : List (ShopItem ℕ)
items = create_new_shop_item (text "tea") [] 2 3 ∷ create_new_shop_item (text "cup") [] 1 5 ∷ []

abbrev created_event : OrderEvent ℕ
created_event = record {
  base = some (record {
    event_id = 11;
    event_type = text "*OrderCreatedV1";
    occurred_on = 12;
    aggregate_id = 7;
    aggregate_sequence_number = 0;
  });
  payload = order_created (record {
    order_id = 7;
    shop_items = map to_dto items;
    account_email = text "a@b";
    delivery_address = text "home";
    created_at = 30;
    delivered_time = 40;
  });
}

abbrev made : Order ℕ
made = record {
  entity = record {
    id = 7;
    entity_type = text "*aggregate.Order";
    created_at = 10;
    updated_at = 0;
  };
  original_version = Version.no_stream;
  current_version = 0;
  uncommitted_events = created_event ∷ [];
  state = record (zero_order whole) {
    shop_items = items;
    account_email = text "a@b";
    delivery_address = text "home";
    delivered_time = 40;
    created_at = 30;
  };
}

new_order-made : new_order configured whole draws 7 items (text "a@b") (text "home") 40 30 ≡ ok made
unfolding new_order apply add_domain_events exists_event
new_order-made = refl

total_price-made : total_price whole made ≡ 11
unfolding total_price
total_price-made = refl

abbrev empty_order : Order ℕ
empty_order = record {
  entity = record {
    id = 0;
    entity_type = text "*aggregate.Order";
    created_at = 50;
    updated_at = 0;
  };
  original_version = Version.no_stream;
  current_version = Version.no_stream;
  uncommitted_events = [];
  state = zero_order whole;
}

new_empty_aggregate-empty_order : new_empty_aggregate configured whole 50 ≡ some empty_order
unfolding new_empty_aggregate
new_empty_aggregate-empty_order = refl

new_order-failure_example :
    failure (new_order configured whole draws 7 items [] (text "home") 40 30)
    ≡ first_broken (rules (is_empty items) [] (text "home") 40 30)
new_order-failure_example = new_order-failure whole draws 7 items [] (text "home") 40 30

update_shopping_card-panics_test : update_shopping_card configured items made ≡ (panic, made)
update_shopping_card-panics_test = update_shopping_card-panics configured items made

new_order-fields_test :
    (made.entity.id ≡ 7)
    × (made.state.shop_items ≡ items)
    × (made.state.account_email ≡ text "a@b")
    × (made.state.delivery_address ≡ text "home")
    × (made.state.delivered_time ≡ 40)
    × (made.state.created_at ≡ 30)
    × (made.original_version ≡ Version.no_stream)
    × (made.current_version ≡ 0)
new_order-fields_test =
    new_order-fields whole configured draws 7 items (text "a@b") (text "home") 40 30 made
      new_order-made

new_order-replay_example :
    let (r, a) = load_from_history (when configured) made.uncommitted_events empty_order in
    (r ≡ ok tt)
    × (a.entity.id ≡ 7)
    × (a.state ≡ made.state)
    × (a.current_version ≡ made.current_version)
    × (a.original_version ≡ made.current_version)
new_order-replay_example =
    new_order-replay whole configured draws 7 items (text "a@b") (text "home") 40 30 made 50
      empty_order new_order-made new_empty_aggregate-empty_order

abbrev nothing_stored : Serializers (OrderPayload ℕ) (Unit {0})
nothing_stored = record {
  serialize = λ e. inl 1;
  deserialize = λ bytes event_type content_type. inl 1;
  serialize_metadata = λ m. inl 1;
  deserialize_metadata = λ bytes. inl 1;
  get_type_name = λ e. text "*OrderCreatedV1";
  decode_fails = λ e. false;
}

abbrev nowhere : CreateOrder ℕ
nowhere = record {
  order_id = 7;
  shop_items = map to_dto items;
  account_email = text "a@b";
  delivery_address = [];
  delivery_time = 40;
  created_at = 30;
}

handle-invalid_test :
    (x : Error) × (handle memory nothing_stored
        (λ n. [])
        (λ i. i)
        tt
        configured
        whole
        draws
        nowhere
        []
      ≡ (err x, []))
    × (x.cause ≡ Cause.invalid_delivery_address)
handle-invalid_test =
    handle-invalid memory nothing_stored (λ n. []) (λ i. i) tt whole draws nowhere []
      Cause.invalid_delivery_address refl

-- What was inserted and what was published.
abbrev Log : Type 0
Log = List (OrderReadModel ℕ) × List (OrderCreatedMessage ℕ)

abbrev insert : OrderReadModel ℕ → Action Log Error (Unit {0})
insert r (inserted, published) = (ok tt, (r ∷ inserted, published))

abbrev send : OrderCreatedMessage ℕ → Action Log Error (Unit {0})
send m (inserted, published) = (ok tt, (inserted, m ∷ published))

abbrev created_stream_event : StreamEvent (OrderPayload ℕ) (Unit {0})
created_stream_event = record {
  event_id = 11;
  version = 0;
  position = 0;
  event = created_event;
  metadata = tt;
}

process_event-Agrees_example :
    (r : OrderReadModel ℕ) × Agrees whole (λ n. []) r made
    × (process_event insert send whole configured
          (λ n. [])
          (text "r")
          (text "m")
          60
          created_stream_event
        ≡ (do
          wrap (with_layer Layer.message) (insert r)
          wrap
              (with_layer Layer.application)
              (send (record { message_id = text "m"; order = to_order_read_dto r }))))
process_event-Agrees_example =
    process_event-Agrees insert send whole (λ n. []) (text "r") (text "m") 60 draws 7 items
      (text "a@b") (text "home") 40 30 made created_stream_event new_order-made refl
