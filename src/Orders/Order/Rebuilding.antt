-- ===== src/Orders/Order/Rebuilding.antt =====
-- The order that `NewOrder` makes, and the one that its pending event gives when it is replayed
-- (internal/services/orderservice/internal/orders/models/orders/aggregate/order.go).
use go_ecommerce_microservic.Common.{
  ℕ, ◌≡◌, refl, ap, Text, text, List, [], ◌∷◌, map, some, ok, arith,
}
use go_ecommerce_microservic.EventSourcing.Version
use go_ecommerce_microservic.EventSourcing.Aggregate.{
  exists_event, add_domain_events, apply, load_from_history,
}
use go_ecommerce_microservic.EventSourcing.Aggregate.Frame.{IsFramed}
use go_ecommerce_microservic.Orders.Items.{Float64, ShopItem, Mappings, to_dto, to_shop_item}
use go_ecommerce_microservic.Orders.Order.{
  Draws, Order, order_created, new_order, new_empty_aggregate, when,
}

items_round_trip :
    {F : Type 0} (items : List (ShopItem F)) → map to_shop_item (map to_dto items) ≡ items
items_round_trip [] = refl
items_round_trip (i ∷ items) = ap (λ l. i ∷ l) (items_round_trip items)

pub when-IsFramed : {F : Type 0} (mappings : Mappings) → IsFramed (when {F = F} mappings)
unfolding when
when-IsFramed mappings = record {
  original = λ e a. ground arith;
  current = λ e a. ground arith;
  uncommitted = λ e a. ground arith;
  id = λ e a b eb i. ground arith;
}

-- An order that `NewOrder` gives has the given id and fields; it stands at version 0, and its original
-- version says that there is no stream yet.
pub new_order-fields :
    {F : Type 0} (float : Float64 F) (mappings : Mappings) (draws : Draws) (id : ℕ)
    (items : List (ShopItem F)) (email address : Text) (delivered created : ℕ) (o : Order F)
    → new_order mappings float draws id items email address delivered created ≡ ok o
    → (o.entity.id ≡ id)
      × (o.state.shop_items ≡ items)
      × (o.state.account_email ≡ email)
      × (o.state.delivery_address ≡ address)
      × (o.state.delivered_time ≡ delivered)
      × (o.state.created_at ≡ created)
      × (o.original_version ≡ Version.no_stream)
      × (o.current_version ≡ 0)
unfolding new_order apply add_domain_events
new_order-fields float mappings draws id items email address delivered created o h =
    ground (arith, items_round_trip items)

-- The one pending event of an order that `NewOrder` gives: what was asked for, stamped with the id and
-- number 0.
pub new_order-pending :
    {F : Type 0} (float : Float64 F) (mappings : Mappings) (draws : Draws) (id : ℕ)
    (items : List (ShopItem F)) (email address : Text) (delivered created : ℕ) (o : Order F)
    → new_order mappings float draws id items email address delivered created ≡ ok o
    → o.uncommitted_events
      ≡ (record {
        base = some (record {
          event_id = draws.event_id;
          event_type = text "*OrderCreatedV1";
          occurred_on = draws.occurred_on;
          aggregate_id = id;
          aggregate_sequence_number = 0;
        });
        payload = order_created (record {
          order_id = id;
          shop_items = map to_dto items;
          account_email = email;
          delivery_address = address;
          created_at = created;
          delivered_time = delivered;
        });
      })
        ∷ []
unfolding new_order apply add_domain_events exists_event
new_order-pending float mappings draws id items email address delivered created o h = ground arith

-- Replaying the pending events of an order that `NewOrder` gave, on an empty order, succeeds, and gives
-- the order's id, its fields and its version, now as the stored one too.
pub new_order-replay :
    {F : Type 0} (float : Float64 F) (mappings : Mappings) (draws : Draws) (id : ℕ)
    (items : List (ShopItem F)) (email address : Text) (delivered created : ℕ) (o : Order F)
    (now : ℕ) (empty : Order F)
    → new_order mappings float draws id items email address delivered created ≡ ok o
    → new_empty_aggregate mappings float now ≡ some empty
    → let (r, a) = load_from_history (when mappings) o.uncommitted_events empty in
      (r ≡ ok tt)
      × (a.entity.id ≡ id)
      × (a.state ≡ o.state)
      × (a.current_version ≡ o.current_version)
      × (a.original_version ≡ o.current_version)
unfolding new_order apply add_domain_events load_from_history
new_order-replay float mappings draws id items email address delivered created o now empty h e =
    ground arith
