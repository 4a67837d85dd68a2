-- ===== src/Orders/Reading/Finding.antt =====
-- Which orders of internal/services/orderservice/internal/orders/data/repositories/mongo_order_read_repository.go
-- a client finds.
use go_ecommerce_microservic.Common.{
  ℕ, true, Text, text, [], ◌∷◌, ◌≡◌, ◌≢◌, Option, none, some, ok, err,
}
use go_ecommerce_microservic.HttpErrors.Chain.{GoError}
use go_ecommerce_microservic.Mongodb.{bson_string, by_id, fields, no_documents, failed, Collection}
use go_ecommerce_microservic.Mongodb.Stored.{put}
use go_ecommerce_microservic.Orders.Projection.{OrderReadModel}
use go_ecommerce_microservic.Orders.Reading.{update_error, update_order, handle_get_order_by_id}

module _ {F : Type 0} where
  abbrev pub id_of_order : OrderReadModel F → Text
  id_of_order order = order.id

  -- No order of a table has this order id.
  abbrev pub IsUnused : Text → (Text → Option (OrderReadModel F)) → Type 0
  IsUnused k table = (id : Text) (o : OrderReadModel F) → table id ≡ some o → o.order_id ≢ k

-- The documented behaviour of a collection of orders, where `kept` is what a document keeps of an order: a
-- date has milliseconds.
pub record IsOrderCollection {W F : Type 0} (c : Collection W (OrderReadModel F))
    (kept : OrderReadModel F → OrderReadModel F) (table : W → Text → Option (OrderReadModel F))
    : Type 0 where
  pub same_id : (o : OrderReadModel F) → (kept o).id ≡ o.id
  pub same_order_id : (o : OrderReadModel F) → (kept o).order_id ≡ o.order_id
  pub inserted :
      (o : OrderReadModel F) (w : W)
      → table w o.id ≡ none
      → (w' : W) × (c.insert_one o w ≡ (ok tt, w'))
        × (table w' ≡ put o.id (some (kept o)) (table w))
  pub found :
      (k : Text) (o : OrderReadModel F) (w : W)
      → table w k ≡ some o
      → c.find_one (by_id (bson_string k)) w ≡ (ok o, w)
  pub missing :
      (k : Text) (w : W)
      → table w k ≡ none
      → c.find_one (by_id (bson_string k)) w ≡ (err no_documents, w)

-- The documented behaviour of a collection of orders that is searched by their order ids, and of the
-- update of a document, whose `_id` cannot be changed.
pub record IsSearchable {W F : Type 0} (c : Collection W (OrderReadModel F))
    (table : W → Text → Option (OrderReadModel F)) : Type 0 where
  pub found_by :
      (k : Text) (o : OrderReadModel F) (w : W)
      → table w o.id ≡ some o
      → o.order_id ≡ k
      → ((id : Text) (o' : OrderReadModel F) → table w id ≡ some o' → o'.order_id ≡ k → o' ≡ o)
      → c.find_one (fields ((text "orderId", bson_string k) ∷ [])) w ≡ (ok o, w)
  pub found_by_none :
      (k : Text) (w : W)
      → IsUnused k (table w)
      → c.find_one (fields ((text "orderId", bson_string k) ∷ [])) w ≡ (err no_documents, w)
  pub immutable :
      (k : Text) (o : OrderReadModel F) (w : W)
      → o.id ≢ k
      → (e : GoError) × (c.find_one_and_update (by_id (bson_string k)) o w ≡ (err (failed e), w))

module _ {W F : Type 0} (get_total_pages : ℕ → ℕ → ℕ) (c : Collection W (OrderReadModel F))
    (show_id : ℕ → Text) (kept : OrderReadModel F → OrderReadModel F)
    (table : W → Text → Option (OrderReadModel F)) (documented : IsOrderCollection c kept table)
    (searchable : IsSearchable c table) where
  -- An id that is neither that of an order nor an order id is answered with no order and no error.
  pub handle_get_order_by_id-missing :
      (id : ℕ) (w : W)
      → table w (show_id id) ≡ none
      → IsUnused (show_id id) (table w)
      → handle_get_order_by_id get_total_pages c show_id true id w ≡ (ok none, w)
  unfolding handle_get_order_by_id
  handle_get_order_by_id-missing id w h unused = rw (
    handle_get_order_by_id,
    documented.missing (show_id id) w h,
    searchable.found_by_none (show_id id) w unused,
  )

  -- An update of an order whose id is not its order id is refused and changes nothing: the order is
  -- looked for by its order id among the ids, and the id of a document cannot be changed.
  pub update_order-refused :
      (order : OrderReadModel F) (w : W)
      → order.id ≢ order.order_id
      → (e : GoError) × (update_order get_total_pages c show_id order w ≡ (err e, w))
  unfolding update_order
  update_order-refused order w h =
      let r = searchable.immutable order.order_id order w h in
      (update_error get_total_pages c show_id order (failed r.0), rw (update_order, r.1))
