-- ===== src/Orders/Reading/Tests.antt =====
-- An order in memory, with prices that are numbers, for the theorems on the orders to read.
use go_ecommerce_microservic.Common.{ℕ, false, Text, text, [], ◌∷◌, ◌≡◌, ◌≢◌, some, err}
use go_ecommerce_microservic.HttpErrors.Chain.{GoError}
use go_ecommerce_microservic.Mongodb.Memory.{entry}
use go_ecommerce_microservic.Orders.Reading.Memory.{
  orders, orders-IsOrderCollection, orders-IsSearchable,
}
use go_ecommerce_microservic.Orders.Projection.{OrderReadModel}
use go_ecommerce_microservic.Orders.Reading.{update_order}
use go_ecommerce_microservic.Orders.Reading.Finding.{update_order-refused}

abbrev order : OrderReadModel ℕ
order = record {
  id = 1 ∷ [];
  order_id = 2 ∷ [];
  shop_items = [];
  account_email = text "a@b.c";
  delivery_address = text "street";
  cancel_reason = [];
  total_price = 5;
  delivered_time = 9;
  paid = false;
  submitted = false;
  completed = false;
  canceled = false;
  payment_id = [];
  created_at = 3;
  updated_at = 0;
}

abbrev show_id : ℕ → Text
show_id id = id ∷ []

other_id : ◌≢◌ {A = Text} (1 ∷ []) (2 ∷ [])
other_id h = cc

update_order-refused_test :
    (e : GoError) × (update_order (λ total size. 0) orders show_id order ((1 ∷ [], some order) ∷ [])
      ≡ (err e, (1 ∷ [], some order) ∷ []))
update_order-refused_test =
    update_order-refused (λ total size. 0) orders show_id (λ o. o) entry orders-IsOrderCollection
      orders-IsSearchable order ((1 ∷ [], some order) ∷ []) other_id
