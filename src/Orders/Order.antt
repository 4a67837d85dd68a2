-- ===== src/Orders/Order.antt =====
-- The order aggregate: internal/services/orderservice/internal/orders/models/orders/aggregate/order.go,
-- and its domain events (features/creating_order/v1/events/domain_events/order_created.go,
-- features/updating_shopping_card/v1/events/shopping_card_updated.go).
pub mod Validating
pub mod Rebuilding
use go_ecommerce_microservic.Common.{
  ℕ, Bool, true, false, Text, text, List, [], ◌∷◌, Option, none, some, ◌==◌, if◌then◌else◌, Outcome,
  ok, err, panic, bind, map_err, lift, pure, Action, ◌>>=◌, ◌>>◌,
}
use go_ecommerce_microservic.EventSourcing.Error.{Error, Cause, Layer, plain, with_layer}
use go_ecommerce_microservic.EventSourcing.Event.{DomainEvent, new_domain_event, get_aggregate_id}
use go_ecommerce_microservic.EventSourcing.Aggregate.{
  EventSourcedAggregateRoot, RootAction, WhenFunc, new_event_sourced_aggregate_root, set_id, apply,
}
use go_ecommerce_microservic.Orders.Items.{
  Float64, ShopItem, ShopItemDto, Mappings, map_slice, to_dto, to_shop_item,
}

-- The fields of `OrderCreatedV1` beside its `DomainEvent`
pub record OrderCreated (F : Type 0) : Type 0 where
  pub order_id : ℕ
  pub shop_items : List (ShopItemDto F)
  pub account_email : Text
  pub delivery_address : Text
  pub created_at : ℕ
  pub delivered_time : ℕ

pub data OrderPayload (F : Type 0) : Type 0 where
  order_created : OrderCreated F → OrderPayload F
  shopping_cart_updated : List (ShopItem F) → OrderPayload F

abbrev pub OrderEvent : Type 0 → Type 0
OrderEvent F = DomainEvent (OrderPayload F)

-- The fields of `Order` beside its base
pub record OrderState (F : Type 0) : Type 0 where
  pub shop_items : List (ShopItem F)
  pub account_email : Text
  pub delivery_address : Text
  pub cancel_reason : Text
  pub total_price_field : F
  pub delivered_time : ℕ
  pub paid : Bool
  pub submitted : Bool
  pub completed : Bool
  pub canceled : Bool
  pub payment_id : ℕ
  pub created_at : ℕ
  pub updated_at : ℕ

abbrev pub Order : Type 0 → Type 0
Order F = EventSourcedAggregateRoot (OrderPayload F) (OrderState F)

-- What the clock and the random source give while an order is made.
pub record Draws : Type 0 where
  pub base_created_at : ℕ
  pub event_id : ℕ
  pub occurred_on : ℕ

abbrev pub is_empty : {A : Type 0} → List A → Bool
is_empty [] = true
is_empty (x ∷ xs) = false

-- `NewOrderCreatedEventV1`; a time is zero when it is Go's zero time.
unfoldable pub new_order_created_event_v1 :
    {F : Type 0}
    → Draws
    → ℕ
    → List (ShopItemDto F)
    → Text
    → Text
    → ℕ
    → ℕ
    → Outcome Error (OrderEvent F)
unfolding new_domain_event
new_order_created_event_v1 draws aggregate_id shop_items account_email delivery_address
      delivered_time created_at =
    if is_empty shop_items
    then err (plain Cause.order_shop_items_required)
    else if is_empty delivery_address
    then err (plain Cause.invalid_delivery_address)
    else if is_empty account_email
    then err (plain Cause.invalid_email_address)
    else if created_at == 0
    then err (plain Cause.created_at_is_zero)
    else if delivered_time == 0
    then err (plain Cause.delivered_time_is_zero)
    else ok (record {
      base = some (new_domain_event draws.event_id draws.occurred_on (text "*OrderCreatedV1"));
      payload = order_created (record {
        order_id = aggregate_id;
        shop_items = shop_items;
        account_email = account_email;
        delivery_address = delivery_address;
        created_at = created_at;
        delivered_time = delivered_time;
      });
    })

-- `NewShoppingCartUpdatedV1`: the embedded `DomainEvent` stays nil.
unfoldable pub new_shopping_cart_updated_v1 : {F : Type 0} → List (ShopItem F) → OrderEvent F
new_shopping_cart_updated_v1 shop_items = record {
  base = none;
  payload = shopping_cart_updated shop_items;
}

module _ {F : Type 0} (float : Float64 F) where
  abbrev pub zero_order : OrderState F
  zero_order = record {
    shop_items = [];
    account_email = [];
    delivery_address = [];
    cancel_reason = [];
    total_price_field = float.zero_float;
    delivered_time = 0;
    paid = false;
    submitted = false;
    completed = false;
    canceled = false;
    payment_id = 0;
    created_at = 0;
    updated_at = 0;
  }

  -- The loop of `getShopItemsTotalPrice`, from the sum so far.
  unfoldable pub add_items : F → List (ShopItem F) → F
  add_items total [] = total
  add_items total (i ∷ items) =
      add_items (float.add total (float.mul i.price (float.of_uint64 i.quantity))) items

  unfoldable pub total_price : Order F → F
  unfolding add_items
  total_price o = add_items float.zero_float o.state.shop_items

module _ {F : Type 0} (mappings : Mappings) where
  abbrev set_created_fields :
      OrderCreated F → List (ShopItem F) → RootAction (OrderPayload F) (OrderState F) (Unit {0})
  set_created_fields evt items a = (
    ok tt,
    record a {
      state = record a.state {
        account_email = evt.account_email;
        shop_items = items;
        delivery_address = evt.delivery_address;
        delivered_time = evt.delivered_time;
        created_at = evt.created_at;
      };
    },
  )

  -- The fields are set before the event's aggregate id is read.
  unfoldable pub on_order_created :
      OrderEvent F → OrderCreated F → RootAction (OrderPayload F) (OrderState F) (Unit {0})
  on_order_created event evt = do
    items ← lift (map_slice mappings.dto_to_shop_item to_shop_item evt.shop_items)
    set_created_fields evt items
    id ← lift (get_aggregate_id event)
    λ a. (ok tt, set_id id a)

  unfoldable pub when : WhenFunc (OrderPayload F) (OrderState F)
  unfolding on_order_created
  when event = elim event.payload [
    | order_created evt ↦ on_order_created event evt
    | shopping_cart_updated items ↦ lift (err (plain Cause.invalid_event_type))
  ]

  unfoldable pub new_empty_aggregate : Float64 F → ℕ → Option (Order F)
  unfolding new_event_sourced_aggregate_root when
  new_empty_aggregate float now =
      new_event_sourced_aggregate_root (text "*aggregate.Order") now (zero_order float) (some when)

  -- The end of `NewOrder`, on the empty aggregate with its id.
  unfoldable pub create :
      Order F → Draws → ℕ → List (ShopItem F) → Text → Text → ℕ → ℕ → Outcome Error (Order F)
  unfolding new_order_created_event_v1 when
  create order draws id shop_items account_email delivery_address delivered_time created_at =
      if is_empty shop_items
      then err (plain Cause.order_shop_items_required)
      else (bind
          (map_err (with_layer Layer.domain)
            (map_slice mappings.shop_item_to_dto to_dto shop_items))
          λ items_dto.
            bind
              (map_err (with_layer Layer.domain) (
                new_order_created_event_v1 draws id items_dto account_email delivery_address
                  delivered_time created_at))
              λ event.
                let (r, order') = apply when event true order in
                bind (map_err (with_layer Layer.domain) r) λ _. ok order')

  unfoldable pub new_order :
      Float64 F → Draws → ℕ → List (ShopItem F) → Text → Text → ℕ → ℕ → Outcome Error (Order F)
  unfolding new_empty_aggregate create
  new_order float draws id shop_items account_email delivery_address delivered_time created_at =
      elim (new_empty_aggregate float draws.base_created_at) [
        | none ↦ panic
        | some order ↦
            create (set_id id order) draws id shop_items account_email delivery_address
              delivered_time created_at
      ]

  unfoldable pub update_shopping_card :
      List (ShopItem F) → RootAction (OrderPayload F) (OrderState F) (Unit {0})
  unfolding new_shopping_cart_updated_v1 when
  update_shopping_card shop_items = do
    apply when (new_shopping_cart_updated_v1 shop_items) true
    pure tt
