-- ===== src/Orders/Projection/Agreement.antt =====
-- The read model of an order (internal/services/orderservice/internal/orders/projections/
-- mongo_order_projection.go) and the order itself (models/orders/aggregate/order.go).
use go_ecommerce_microservic.Common.{
  ℕ, ◌≡◌, refl, ap, Text, List, [], ◌∷◌, map, ok, Action, wrap, ◌>>◌, ◌∙◌, sym,
}
use go_ecommerce_microservic.EventSourcing.Error.{Error, Layer, with_layer}
use go_ecommerce_microservic.EventSourcing.Event.{StreamEvent, DomainEvent}
use go_ecommerce_microservic.Orders.Items.{
  Float64, ShopItem, configured, to_dto, to_read_model, map_slice-registered,
}
use go_ecommerce_microservic.Orders.Order.{
  Draws, Order, OrderPayload, order_created, new_order, total_price, add_items,
}
use go_ecommerce_microservic.Orders.Order.Rebuilding.{new_order-fields, new_order-pending}
use go_ecommerce_microservic.Orders.Projection.{
  OrderReadModel, OrderCreatedMessage, add_read_items, new_order_read_model, to_order_read_dto,
  process_event,
}

add_read_items-to_read_model :
    {F : Type 0} (float : Float64 F) (total : F) (items : List (ShopItem F))
    → add_read_items float total (map to_read_model (map to_dto items))
      ≡ add_items float total items
unfolding add_read_items add_items
add_read_items-to_read_model float total [] = refl
add_read_items-to_read_model float total (i ∷ items) =
    add_read_items-to_read_model float
      (float.add total (float.mul i.price (float.of_uint64 i.quantity))) items

abbrev payload_or :
    {F : Type 0} → OrderPayload F → List (DomainEvent (OrderPayload F)) → OrderPayload F
payload_or p [] = p
payload_or p (d ∷ ds) = d.payload

-- What the read model has in common with the order.
pub record Agrees {F : Type 0} (float : Float64 F) (uuid_string : ℕ → Text) (r : OrderReadModel F)
    (o : Order F) : Type 0 where
  pub same_id : r.order_id ≡ uuid_string o.entity.id
  pub same_items : r.shop_items ≡ map to_read_model (map to_dto o.state.shop_items)
  pub same_email : r.account_email ≡ o.state.account_email
  pub same_address : r.delivery_address ≡ o.state.delivery_address
  pub same_time : r.delivered_time ≡ o.state.delivered_time
  pub same_total : r.total_price ≡ total_price float o

-- The projection of an order's created event, with the mappings registered, inserts one read model and
-- then publishes its message, with their errors wrapped; the read model agrees with the order that
-- `NewOrder` gave, on the id, the items, the addresses, the delivery time and the total price.
pub process_event-Agrees :
    {W F M : Type 0} (create_order : OrderReadModel F → Action W Error (Unit {0}))
    (publish_message : OrderCreatedMessage F → Action W Error (Unit {0})) (float : Float64 F)
    (uuid_string : ℕ → Text) (read_id message_id : Text) (now : ℕ) (draws : Draws) (id : ℕ)
    (items : List (ShopItem F)) (email address : Text) (delivered created : ℕ) (o : Order F)
    (e : StreamEvent (OrderPayload F) M)
    → new_order configured float draws id items email address delivered created ≡ ok o
    → o.uncommitted_events ≡ e.event ∷ []
    → (r : OrderReadModel F) × Agrees float uuid_string r o
      × (process_event create_order publish_message float configured uuid_string read_id message_id
            now e
          ≡ (do
            wrap (with_layer Layer.message) (create_order r)
            wrap (with_layer Layer.application) (
                publish_message (record { message_id = message_id; order = to_order_read_dto r }))))
unfolding process_event total_price
process_event-Agrees create_order publish_message float uuid_string read_id message_id now draws id
      items email address delivered created o e h p =
    let (same_id, same_items, same_email, same_address, same_time, made, original, current) =
      new_order-fields float configured draws id items email address delivered created o h in
    let payload : e.event.payload
        ≡ order_created (record {
          order_id = id;
          shop_items = map to_dto items;
          account_email = email;
          delivery_address = address;
          created_at = created;
          delivered_time = delivered;
        }) =
      ap (payload_or e.event.payload) (
        sym p
        ∙ new_order-pending float configured draws id items email address delivered created o h) in
    (
      new_order_read_model float read_id now (uuid_string id) (map to_read_model (map to_dto items))
          email address delivered,
      record {
        same_id = ap uuid_string (sym same_id);
        same_items = ap (λ l. map to_read_model (map to_dto l)) (sym same_items);
        same_email = sym same_email;
        same_address = sym same_address;
        same_time = sym same_time;
        same_total =
            add_read_items-to_read_model float float.zero_float items
            ∙ ap (add_items float float.zero_float) (sym same_items);
      },
      rw payload (rw (map_slice-registered to_read_model (map to_dto items)) refl),
    )
