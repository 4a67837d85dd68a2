-- ===== src/Orders/Reading.antt =====
-- The orders to read: internal/services/orderservice/internal/orders/data/repositories/
-- mongo_order_read_repository.go and the handlers of features/getting_order_by_id and features/getting_orders.
-- The collection of MongoDB, the mapper on slices and the text of a uuid are parameters. Tracing, logging and
-- the validation of queries are left out.
pub mod Finding
mod Memory
mod Tests
use go_ecommerce_microservic.Common.{
  ℕ, Bool, true, false, Text, text, ◌++◌, List, [], ◌∷◌, Option, none, some, Outcome, ok, err,
  panic, Action, pure, lift, wrap, map_err, ◌>>=◌, ◌>>◌, if◌then◌else◌,
}
use go_ecommerce_microservic.HttpErrors.Chain.{GoError, leaf, annotated}
use go_ecommerce_microservic.HttpErrors.CustomErrors.{new_application_error_wrap}
use go_ecommerce_microservic.Pagination.{ListQuery}
use go_ecommerce_microservic.Mongodb.{
  bson_string, FieldRegex, Filter, everything, fields, any_of, by_id, FindError, no_documents,
  failed, find_error, Collection, ListResult, application_list, paginate,
}
use go_ecommerce_microservic.Orders.Projection.{OrderReadModel, OrderReadDto, to_order_read_dto}

module _ {W F : Type 0} (get_total_pages : ℕ → ℕ → ℕ) (collection : Collection W (OrderReadModel F))
    (show_id : ℕ → Text) where
  unfoldable pub get_all_orders : ListQuery → Action W GoError (ListResult (OrderReadModel F))
  unfolding paginate
  get_all_orders list_query =
      wrap
        (annotated (text "[mongoOrderReadRepository_GetAllOrders.Paginate] error in the paginate"))
        (paginate get_total_pages collection list_query everything)

  abbrev pub ignoring_case : Text → Text → FieldRegex
  ignoring_case name search_text = record {
    name = name;
    pattern = search_text;
    options = text "gi";
  }

  unfoldable pub search_orders : Text → ListQuery → Action W GoError (ListResult (OrderReadModel F))
  unfolding paginate
  search_orders search_text list_query =
      wrap
        (annotated (text "[mongoOrderReadRepository_SearchOrders.Paginate] error in the paginate"))
        (paginate get_total_pages collection list_query (
          any_of (
            ignoring_case (text "name") search_text
            ∷ ignoring_case (text "description") search_text
            ∷ [])))

  -- An order that is not there is nil, without an error.
  abbrev pub order_or_nil :
      Text → Outcome FindError (OrderReadModel F) → Outcome GoError (Option (OrderReadModel F))
  order_or_nil message (ok order) = ok (some order)
  order_or_nil message (err no_documents) = ok none
  order_or_nil message (err (failed e)) = err (annotated message e)
  order_or_nil message panic = panic

  abbrev pub find_order : Text → Filter → Action W GoError (Option (OrderReadModel F))
  find_order message filter w =
      let (r, w') = collection.find_one filter w in (order_or_nil message r, w')

  unfoldable pub get_order_by_id : ℕ → Action W GoError (Option (OrderReadModel F))
  get_order_by_id id =
      find_order
        (text "[mongoOrderReadRepository_GetOrderById.FindOne] can't find the order with id "
          ++ (show_id id ++ text " into the database."))
        (by_id (bson_string (show_id id)))

  unfoldable pub get_order_by_order_id : ℕ → Action W GoError (Option (OrderReadModel F))
  get_order_by_order_id order_id =
      find_order
        (text "[mongoOrderReadRepository_GetOrderById.FindOne] can't find the order with orderId "
          ++ (show_id order_id ++ text " into the database."))
        (fields ((text "orderId", bson_string (show_id order_id)) ∷ []))

  unfoldable pub create_order : OrderReadModel F → Action W GoError (OrderReadModel F)
  create_order order =
      wrap
        (annotated (
          text "[mongoOrderReadRepository_CreateOrder.InsertOne] error in the inserting order into "
          ++ text "the database."))
        (collection.insert_one order)
      >> pure order

  abbrev pub update_error : OrderReadModel F → FindError → GoError
  update_error order e =
      annotated
        (text
            "[mongoOrderReadRepository_UpdateOrder.FindOneAndUpdate] error in updating order with id "
          ++ (order.order_id ++ text " into the database."))
        (find_error e)

  -- The order is looked for by its order id among the ids.
  unfoldable pub update_order : OrderReadModel F → Action W GoError (OrderReadModel F)
  update_order order =
      wrap (update_error order)
        (collection.find_one_and_update (by_id (bson_string order.order_id)) order)

  -- The id, which is printed as its bytes, is left out of the text of the error.
  unfoldable pub delete_order_by_id : ℕ → Action {0, 0, 0} W GoError Unit
  delete_order_by_id id =
      wrap
        (λ e.
          annotated
            (text
              "[mongoOrderReadRepository_DeleteOrderByID.FindOneAndDelete] error in deleting order")
            (find_error e))
        (collection.find_one_and_delete (by_id (bson_string (show_id id))))

  abbrev pub application_error : {A : Type 0} → Text → Action W GoError A → Action W GoError A
  application_error message m = wrap (λ e. new_application_error_wrap (some e) message) m

  abbrev pub or_by_order_id :
      ℕ → Option (OrderReadModel F) → Action W GoError (Option (OrderReadModel F))
  or_by_order_id id (some order) = pure (some order)
  or_by_order_id id none =
      application_error
        (text "[GetOrderByIdHandler_Handle.GetProductById] error in getting order with orderId "
          ++ (show_id id ++ text " in the mongo repository"))
        (get_order_by_order_id id)

  -- `mapper.Map` of an order: nil is mapped to nil; otherwise the mapping has to be registered.
  abbrev pub map_order :
      Bool → Option (OrderReadModel F) → Outcome GoError (Option (OrderReadDto F))
  map_order registered none = ok none
  map_order registered (some order) =
      if registered
      then ok (some (to_order_read_dto order))
      else err (leaf (text "mapper: map does not exist"))

  -- `Handle` of getting_order_by_id
  unfoldable pub handle_get_order_by_id : Bool → ℕ → Action W GoError (Option (OrderReadDto F))
  unfolding get_order_by_id get_order_by_order_id
  handle_get_order_by_id registered id =
      application_error
        (text "[GetOrderByIdHandler_Handle.GetProductById] error in getting order with id "
          ++ (show_id id ++ text " in the mongo repository"))
        (get_order_by_id id)
      >>= or_by_order_id id
      >>= λ order.
          application_error (text "[GetOrderByIdHandler_Handle.Map] error in the mapping order")
            (lift (map_order registered order))

  -- `Handle` of getting_orders
  unfoldable pub handle_get_orders :
      (List (OrderReadModel F) → Outcome GoError (List (OrderReadDto F)))
      → ListQuery
      → Action W GoError (ListResult (OrderReadDto F))
  unfolding get_all_orders
  handle_get_orders map_orders list_query =
      application_list map_orders
        (text "[GetOrdersHandler_Handle.GetAllOrders] error in getting orders in the repository")
        (text "[GetOrdersHandler_Handle.ListResultToListResultDto] error in the mapping "
          ++ text "ListResultToListResultDto")
        (get_all_orders list_query)
