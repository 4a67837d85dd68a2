-- ===== src/Orders/Order/Validating.antt =====
-- What orders `NewOrder` refuses, and what orders `UpdateShoppingCard` changes
-- (internal/services/orderservice/internal/orders/models/orders/aggregate/order.go).
use go_ecommerce_microservic.Common.{
  ℕ, Bool, true, false, ◌≡◌, ◌≢◌, refl, Text, List, [], ◌∷◌, Option, none, some, ◌==◌, Outcome, ok,
  err, panic, arith, ◌⊎◌, inl, inr,
}
use go_ecommerce_microservic.EventSourcing.Error.{Error, Cause}
use go_ecommerce_microservic.EventSourcing.Event.{DomainEvent}
use go_ecommerce_microservic.EventSourcing.Aggregate.{exists_event, add_domain_events, apply}
use go_ecommerce_microservic.Orders.Items.{Float64, ShopItem, Mappings, configured}
use go_ecommerce_microservic.Orders.Order.{
  Draws, Order, is_empty, new_order, update_shopping_card, new_shopping_cart_updated_v1,
}

-- The cause of the failure, if there is one; a panic has none of the error's causes.
abbrev pub failure : {A : Type 0} → Outcome Error A → Option Cause
failure (ok a) = none
failure (err e) = some e.cause
failure panic = some Cause.nothing

abbrev pub first_broken : List (Bool × Cause) → Option Cause
first_broken [] = none
first_broken ((true, cause) ∷ rules) = some cause
first_broken ((false, cause) ∷ rules) = first_broken rules

-- What is wrong with an order, in the order in which the code looks for it.
abbrev pub rules : Bool → Text → Text → ℕ → ℕ → List (Bool × Cause)
rules no_items email address delivered created =
    (no_items, Cause.order_shop_items_required)
    ∷ (is_empty address, Cause.invalid_delivery_address)
    ∷ (is_empty email, Cause.invalid_email_address)
    ∷ (created == 0, Cause.created_at_is_zero)
    ∷ (delivered == 0, Cause.delivered_time_is_zero)
    ∷ []

-- With the mappings registered, `NewOrder` fails exactly if there is no item, no address, no email, or
-- a time is zero, and the cause of its error is the first of these in this order.
pub new_order-failure :
    {F : Type 0} (float : Float64 F) (draws : Draws) (id : ℕ) (items : List (ShopItem F))
    (email address : Text) (delivered created : ℕ)
    → failure (new_order configured float draws id items email address delivered created)
      ≡ first_broken (rules (is_empty items) email address delivered created)
unfolding new_order apply add_domain_events exists_event
new_order-failure float draws id [] email address delivered created = refl
new_order-failure float draws id (i ∷ rest) email [] delivered created = refl
new_order-failure float draws id (i ∷ rest) [] (a ∷ address) delivered created = refl
new_order-failure float draws id (i ∷ rest) (e ∷ email) (a ∷ address) delivered created =
    ground arith

-- With the mappings registered, `NewOrder` does not panic.
pub new_order-no_panic :
    {F : Type 0} (float : Float64 F) (draws : Draws) (id : ℕ) (items : List (ShopItem F))
    (email address : Text) (delivered created : ℕ)
    → new_order configured float draws id items email address delivered created ≢ panic
unfolding new_order apply add_domain_events exists_event
new_order-no_panic float draws id items email address delivered created h = ground arith

exists_event-nil :
    {P : Type 0} (event : DomainEvent P) (es : List (DomainEvent P))
    → event.base ≡ none
    → (exists_event event es ≡ ok false) ⊎ (exists_event event es ≡ panic)
unfolding exists_event
exists_event-nil event [] h = inl refl
exists_event-nil event (e ∷ es) h = inr (ground arith)

-- `UpdateShoppingCard` panics on every order, and changes nothing: its event has no `DomainEvent`.
pub update_shopping_card-panics :
    {F : Type 0} (mappings : Mappings) (items : List (ShopItem F)) (o : Order F)
    → update_shopping_card mappings items o ≡ (panic, o)
unfolding update_shopping_card apply add_domain_events
update_shopping_card-panics mappings items o =
    ground (arith, exists_event-nil (new_shopping_cart_updated_v1 items) o.uncommitted_events refl)
