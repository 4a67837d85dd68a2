-- ===== src/Orders/Projection.antt =====
-- internal/services/orderservice/internal/orders/projections/mongo_order_projection.go, with
-- models/orders/read_models/order_read_model.go, dtos/v1/order_read_dto.go and the integration event of
-- features/creating_order. The MongoDB repository and the producer of messages are interfaces of the
-- source, and parameters over the state `W`. Tracing and logging are left out.
pub mod Agreement
use go_ecommerce_microservic.Common.{
  ℕ, ◌≡◌, refl, ap, Bool, true, false, Text, text, List, [], ◌∷◌, map, Option, none, some, Outcome,
  ok, err, panic, map_err, arith, Action, wrap, lift, pure, if◌then◌else◌, ◌>>=◌, ◌>>◌, ◌∙◌, sym,
}
use go_ecommerce_microservic.EventSourcing.Error.{Error, Layer, plain, with_layer, map_not_exist}
use go_ecommerce_microservic.EventSourcing.Event.{StreamEvent}
use go_ecommerce_microservic.EventSourcing.Aggregate.{apply, add_domain_events}
use go_ecommerce_microservic.Orders.Items.{
  Float64, ShopItem, ShopItemDto, ShopItemReadModel, ShopItemReadDto, Mappings, map_slice, to_dto,
  to_read_model, to_read_dto,
}
use go_ecommerce_microservic.Orders.Order.{
  OrderPayload, OrderCreated, order_created, shopping_cart_updated, add_items,
}

pub record OrderReadModel (F : Type 0) : Type 0 where
  pub id : Text
  pub order_id : Text
  pub shop_items : List (ShopItemReadModel F)
  pub account_email : Text
  pub delivery_address : Text
  pub cancel_reason : Text
  pub total_price : F
  pub delivered_time : ℕ
  pub paid : Bool
  pub submitted : Bool
  pub completed : Bool
  pub canceled : Bool
  pub payment_id : Text
  pub created_at : ℕ
  pub updated_at : ℕ

pub record OrderReadDto (F : Type 0) : Type 0 where
  pub id : Text
  pub order_id : Text
  pub shop_items : List (ShopItemReadDto F)
  pub account_email : Text
  pub delivery_address : Text
  pub cancel_reason : Text
  pub total_price : F
  pub delivered_time : ℕ
  pub paid : Bool
  pub submitted : Bool
  pub completed : Bool
  pub canceled : Bool
  pub payment_id : Text
  pub created_at : ℕ
  pub updated_at : ℕ

-- The integration event: a message with its id, and the order.
pub record OrderCreatedMessage (F : Type 0) : Type 0 where
  pub message_id : Text
  pub order : OrderReadDto F

module _ {F : Type 0} (float : Float64 F) where
  -- The loop of the read model's `getShopItemsTotalPrice`, from the sum so far.
  unfoldable pub add_read_items : F → List (ShopItemReadModel F) → F
  add_read_items total [] = total
  add_read_items total (i ∷ items) =
      add_read_items (float.add total (float.mul i.price (float.of_uint64 i.quantity))) items

  -- `id` is the string of what `uuid.NewV4` draws, `now` the time.
  unfoldable pub new_order_read_model :
      Text → ℕ → Text → List (ShopItemReadModel F) → Text → Text → ℕ → OrderReadModel F
  unfolding add_read_items
  new_order_read_model id now order_id items account_email delivery_address delivery_time = record {
    id = id;
    order_id = order_id;
    shop_items = items;
    account_email = account_email;
    delivery_address = delivery_address;
    cancel_reason = [];
    total_price = add_read_items float.zero_float items;
    delivered_time = delivery_time;
    paid = false;
    submitted = false;
    completed = false;
    canceled = false;
    payment_id = [];
    created_at = now;
    updated_at = 0;
  }

-- `OrderReadModel -> OrderReadDto`: the fields by their names.
unfoldable pub to_order_read_dto : {F : Type 0} → OrderReadModel F → OrderReadDto F
to_order_read_dto o = record {
  id = o.id;
  order_id = o.order_id;
  shop_items = map to_read_dto o.shop_items;
  account_email = o.account_email;
  delivery_address = o.delivery_address;
  cancel_reason = o.cancel_reason;
  total_price = o.total_price;
  delivered_time = o.delivered_time;
  paid = o.paid;
  submitted = o.submitted;
  completed = o.completed;
  canceled = o.canceled;
  payment_id = o.payment_id;
  created_at = o.created_at;
  updated_at = o.updated_at;
}

module _ {W F : Type 0} (create_order : OrderReadModel F → Action W Error (Unit {0}))
    (publish_message : OrderCreatedMessage F → Action W Error (Unit {0})) (float : Float64 F)
    (mappings : Mappings) (uuid_string : ℕ → Text) (id message_id : Text) (now : ℕ) where
  unfoldable pub on_order_created : OrderCreated F → Action W Error (Unit {0})
  unfolding new_order_read_model to_order_read_dto
  on_order_created evt = do
    items ← lift (
        map_err (with_layer Layer.message)
          (map_slice mappings.dto_to_read_model to_read_model evt.shop_items))
    let order_read =
        new_order_read_model float id now (uuid_string evt.order_id) items evt.account_email
          evt.delivery_address evt.delivered_time
    wrap (with_layer Layer.message) (create_order order_read)
    dto ← lift (
        map_err (with_layer Layer.application) (
          if mappings.order_read_model_to_dto
          then ok (to_order_read_dto order_read)
          else err (plain map_not_exist)))
    wrap (with_layer Layer.application)
        (publish_message (record { message_id = message_id; order = dto }))

unfoldable pub process_event :
    {W F M : Type 0}
    → (OrderReadModel F → Action W Error (Unit {0}))
    → (OrderCreatedMessage F → Action W Error (Unit {0}))
    → Float64 F
    → Mappings
    → (ℕ → Text)
    → Text
    → Text
    → ℕ
    → StreamEvent (OrderPayload F) M
    → Action W Error (Unit {0})
unfolding on_order_created
process_event create_order publish_message float mappings uuid_string id message_id now e =
    elim e.event.payload [
      | order_created evt ↦
          on_order_created create_order publish_message float mappings uuid_string id message_id now
            evt
      | shopping_cart_updated items ↦ pure tt
    ]
