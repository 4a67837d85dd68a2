-- ===== src/Orders/Creating.antt =====
-- internal/services/orderservice/internal/orders/features/creating_order/v1/commands: the command that
-- creates an order, and its handler. Validation of the command by its library is left out.
use go_ecommerce_microservic.Common.{
  ℕ, ◌≡◌, ◌≢◌, refl, arith, Text, text, List, [], ◌∷◌, some, Outcome, ok, err, panic, bind, map_err,
  Action, map, ◌∙◌,
}
use go_ecommerce_microservic.EventSourcing.Error.{Error, Cause, Layer, with_layer}
use go_ecommerce_microservic.Eventstoredb.Client.{Client}
use go_ecommerce_microservic.Eventstoredb.Serializer.{Serializers}
use go_ecommerce_microservic.Eventstoredb.AggregateStore.{store}
use go_ecommerce_microservic.Orders.Items.{
  Float64, ShopItemDto, Mappings, configured, map_slice, map_slice-registered, to_shop_item,
}
use go_ecommerce_microservic.Orders.Order.{Draws, Order, OrderPayload, is_empty, new_order}
use go_ecommerce_microservic.Orders.Order.Validating.{
  failure, first_broken, rules, new_order-failure, new_order-no_panic,
}

pub record CreateOrder (F : Type 0) : Type 0 where
  pub order_id : ℕ
  pub shop_items : List (ShopItemDto F)
  pub account_email : Text
  pub delivery_address : Text
  pub delivery_time : ℕ
  pub created_at : ℕ

module _ {S F M : Type 0} (c : Client S) (z : Serializers (OrderPayload F) M)
    (uuid_string : ℕ → Text) (new_id : ℕ → ℕ) (no_metadata : M) where
  -- The aggregate store's `Store` of a new order. The stream's name is that of the aggregate's type.
  unfoldable pub store_order : Order F → Action S Error ℕ
  unfolding store
  store_order order s =
      let (r, w) =
        store c z uuid_string (text "Order") new_id no_metadata
          (record { server = s; aggregate = order }) in
      (bind (map_err (with_layer Layer.application) r) λ _. ok w.aggregate.entity.id, w.server)

  -- `Handle`: the id of the response
  unfoldable pub handle : Mappings → Float64 F → Draws → CreateOrder F → Action S Error ℕ
  unfolding store_order
  handle mappings float draws command s =
      let order =
        bind
          (map_err (with_layer Layer.application)
            (map_slice mappings.dto_to_shop_item to_shop_item command.shop_items))
          λ items. map_err (with_layer Layer.application) (
            new_order mappings float draws command.order_id items command.account_email
              command.delivery_address command.delivery_time command.created_at) in
      elim order [ ok o ↦ store_order o s | err e ↦ (err e, s) | panic ↦ (panic, s) ]

failed :
    {A : Type 0} {cause : Cause} (r : Outcome Error A)
    → failure r ≡ some cause
    → r ≢ panic
    → (x : Error) × (r ≡ err x) × (x.cause ≡ cause)
failed (ok a) h n = cc
failed (err e) h n = (e, refl, ground arith)
failed panic h n = elim (n refl) [ ]

is_empty-map : {A B : Type 0} (f : A → B) (xs : List A) → is_empty (map f xs) ≡ is_empty xs
is_empty-map f [] = refl
is_empty-map f (x ∷ xs) = refl

-- A command without items, address or email, or with a zero time, is refused with the first of these
-- causes, and the server is left as it is.
pub handle-invalid :
    {S F M : Type 0} (c : Client S) (z : Serializers (OrderPayload F) M) (uuid_string : ℕ → Text)
    (new_id : ℕ → ℕ) (no_metadata : M) (float : Float64 F) (draws : Draws) (command : CreateOrder F)
    (s : S) (cause : Cause)
    → first_broken (
        rules
          (is_empty command.shop_items)
          command.account_email
          command.delivery_address
          command.delivery_time
          command.created_at)
      ≡ some cause
    → (x : Error) × (handle c z uuid_string new_id no_metadata configured float draws command s
        ≡ (err x, s))
      × (x.cause ≡ cause)
unfolding handle
handle-invalid c z uuid_string new_id no_metadata float draws command s cause h =
    let items = map to_shop_item command.shop_items in
    let order =
      new_order configured float draws command.order_id items command.account_email
        command.delivery_address command.delivery_time command.created_at in
    let wrong : failure order ≡ some cause =
      new_order-failure float draws command.order_id items command.account_email
        command.delivery_address command.delivery_time command.created_at
      ∙ rw (is_empty-map to_shop_item command.shop_items) h in
    let (x, e, same) = failed order wrong (
      new_order-no_panic float draws command.order_id items command.account_email
        command.delivery_address command.delivery_time command.created_at) in
    (
      with_layer Layer.application x,
      ground (arith, map_slice-registered to_shop_item command.shop_items, e),
      same,
    )
