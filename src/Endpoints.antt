-- ===== src/Endpoints.antt =====
-- The entrances of the services, over HTTP (the endpoints of the features in internal/services) and over gRPC
-- (shared/grpc of the catalog's writing side and of the orders). The binding of a request, the reading of a
-- list's query, the validation of a command or a query, the mediator, uuids and the mapping of answers are
-- parameters; counters, spans and logs are left out.
pub mod Replies
pub mod Answers
mod Tests
use go_ecommerce_microservic.Common.{
  ℕ, Text, text, ◌++◌, Option, none, some, Outcome, ok, err, panic, Action, pure, lift, wrap,
  map_err, ◌>>=◌,
}
use go_ecommerce_microservic.HttpErrors.Chain.{GoError, annotated}
use go_ecommerce_microservic.HttpErrors.CustomErrors.{
  new_bad_request_error_wrap, new_validation_error_wrap,
}

-- The status of a response, with what is written as JSON, if there is anything.
pub record Response (R : Type 0) : Type 0 where
  pub status : ℕ
  pub body : Option R

abbrev pub bad_request : Text → GoError → GoError
bad_request message e = new_bad_request_error_wrap (some e) message

abbrev pub validation_failed : Text → GoError → GoError
validation_failed message e = new_validation_error_wrap (some e) message

abbrev pub as_it_is : GoError → GoError
as_it_is e = e

-- A command or a query, unless its validation gives an error.
abbrev pub unless : {C : Type 0} → Option GoError → C → Outcome GoError C
unless none command = ok command
unless (some e) command = err e

abbrev pub validated : {C : Type 0} → (C → Option GoError) → C → Outcome GoError C
validated validate command = unless (validate command) command

-- `Validate` of the commands and queries of the catalog's writing side wraps the error of the library.
abbrev pub validated_as_error : {C : Type 0} → (C → Option GoError) → C → Outcome GoError C
validated_as_error validate command =
    map_err (validation_failed (text "validation error")) (validated validate command)

abbrev pub json : {R : Type 0} → ℕ → R → Response R
json status result = record { status = status; body = some result }

abbrev pub no_content : {R : Type 0} → R → Response R
no_content result = record { status = 204; body = none }

module _ {W C R : Type 0} where
  -- The steps of a handler: a command is made or refused, sent, and its result answered.
  abbrev pub handled :
      Outcome GoError C
      → (GoError → GoError)
      → (C → Action W GoError R)
      → Text
      → (R → Response R)
      → Action W GoError (Response R)
  handled command refusal send sending answer = lift (map_err refusal command) >>= λ c.
      wrap (annotated sending) (send c) >>= λ result. pure (answer result)

module _ {W R : Type 0} where
  -- A request that is bound, or refused as a bad one.
  abbrev pub bound {ℓ} :
      {Q : Type ℓ}
      → Outcome GoError Q
      → Text
      → (Q → Action W GoError (Response R))
      → Action W GoError (Response R)
  bound request message next = lift (map_err (bad_request message) request) >>= next

module _ {W Q C R : Type 0} (request : Outcome GoError Q) (make : Q → C)
    (validate : C → Option GoError) (send : C → Action W GoError R) where
  abbrev pub binding : Text
  binding = text "error in the binding request"

  unfoldable pub create_product_endpoint : Action W GoError (Response R)
  create_product_endpoint = bound request binding λ q.
      handled (validated_as_error validate (make q)) as_it_is send
        (text "error in sending CreateProduct") (json 201)

  unfoldable pub update_product_endpoint : Action W GoError (Response R)
  update_product_endpoint = bound request binding λ q.
      handled (validated_as_error validate (make q)) as_it_is send
        (text "error in sending UpdateProduct") no_content

  unfoldable pub delete_product_endpoint : Action W GoError (Response R)
  delete_product_endpoint = bound request binding λ q.
      handled (validated_as_error validate (make q)) as_it_is send
        (text "error in sending DeleteProduct") no_content

  unfoldable pub get_product_by_id_endpoint : Action W GoError (Response R)
  get_product_by_id_endpoint = bound request binding λ q.
      handled (validated_as_error validate (make q)) as_it_is send
        (text "error in sending GetProductById") (json 200)

  -- The same endpoint of the catalog's reading side.
  unfoldable pub get_read_product_by_id_endpoint : Action W GoError (Response R)
  get_read_product_by_id_endpoint = bound request binding λ q.
      handled (validated validate (make q)) (validation_failed (text "query validation failed"))
        send (text "error in sending GetProductById") (json 200)

  unfoldable pub create_order_endpoint : Action W GoError (Response R)
  create_order_endpoint =
      bound request (text "[createOrderEndpoint_handler.Bind] error in the binding request") λ q.
        handled (validated validate (make q))
          (validation_failed
            (text "[createOrderEndpoint_handler.StructCtx] command validation failed"))
          send (text "[createOrderEndpoint_handler.Send] error in sending CreateOrder") (json 201)

  unfoldable pub get_order_by_id_endpoint : Action W GoError (Response R)
  get_order_by_id_endpoint =
      bound request (text "[getProductByIdEndpoint_handler.Bind] error in the binding request") λ q.
        handled (validated validate (make q))
          (validation_failed
            (text "[getProductByIdEndpoint_handler.StructCtx]  query validation failed"))
          send (text "[getProductByIdEndpoint_handler.Send] error in sending GetOrderById")
          (json 200)

-- The endpoints of lists: `list_query` is what `GetListQueryFromCtx` gives.
module _ {W L Q C R : Type 0} (list_query : Outcome GoError L) (request : L → Outcome GoError Q)
    (make : Q → C) (validate : C → Option GoError) (send : C → Action W GoError R) where
  abbrev pub query_text : Text
  query_text = text "error in getting data from query string"

  abbrev pub list_binding : Text
  list_binding = text "error in the binding request"

  unfoldable pub get_products_endpoint : Action W GoError (Response R)
  get_products_endpoint = bound list_query query_text λ l.
      bound (request l) list_binding
        λ q. handled (ok (make q)) as_it_is send (text "error in sending GetProducts") (json 200)

  unfoldable pub search_products_endpoint : Action W GoError (Response R)
  search_products_endpoint = bound list_query query_text λ l. bound (request l) list_binding λ q.
      handled (validated_as_error validate (make q)) as_it_is send
        (text "error in sending SearchProducts") (json 200)

  -- The same endpoint of the catalog's reading side.
  unfoldable pub search_read_products_endpoint : Action W GoError (Response R)
  search_read_products_endpoint = bound list_query query_text λ l.
      bound (request l) list_binding λ q.
        handled (validated validate (make q)) (validation_failed (text "query validation failed"))
          send (text "error in sending SearchProducts") (json 200)

  -- The bad request for the query of the list is only logged.
  unfoldable pub get_orders_endpoint : Action W GoError (Response R)
  get_orders_endpoint = lift list_query >>= λ l.
      bound (request l) (text "[getOrdersEndpoint_handler.Bind] error in the binding request") λ q.
        handled (ok (make q)) as_it_is send
          (text "[getOrdersEndpoint_handler.Send] error in sending GetOrders") (json 200)

-- A method of a gRPC server: an answer that is made of the result.
module _ {W C R A : Type 0} where
  abbrev pub served :
      Outcome GoError C
      → Text
      → (C → Action W GoError R)
      → Text
      → (R → Outcome GoError A)
      → Action W GoError A
  served command invalid send sending answer =
      lift (map_err (validation_failed invalid) command) >>= λ c.
      wrap (annotated sending) (send c) >>= λ result. lift (answer result)

  module _ (validate : C → Option GoError) (send : C → Action W GoError R) where
    -- `make` draws the id and the time of the command; the answer is the text of its id.
    unfoldable pub create_product_grpc : C → (R → A) → Action W GoError A
    create_product_grpc command answer =
        served (validated_as_error validate command)
          (text "[ProductGrpcServiceServer_CreateProduct.StructCtx] command validation failed") send
          (text "[ProductGrpcServiceServer_CreateProduct.Send] error in sending CreateProduct")
          (λ result. ok (answer result))

    unfoldable pub update_product_grpc : Outcome GoError ℕ → (ℕ → C) → A → Action W GoError A
    update_product_grpc product_uuid make answer =
        lift (
          map_err
            (bad_request (
              text
                "[ProductGrpcServiceServer_UpdateProduct.uuid.FromString] error in converting uuid"))
            product_uuid)
        >>= λ id.
            served (validated_as_error validate (make id))
              (text "[ProductGrpcServiceServer_UpdateProduct.StructCtx] command validation failed")
              send
              (text "[ProductGrpcServiceServer_UpdateProduct.Send] error in sending CreateProduct")
              (λ result. ok answer)

    unfoldable pub get_product_by_id_grpc :
        Outcome GoError ℕ → (ℕ → C) → (R → Outcome GoError A) → Action W GoError A
    get_product_by_id_grpc product_uuid make map_product =
        lift (
          map_err
            (bad_request (
              text
                "[ProductGrpcServiceServer_GetProductById.uuid.FromString] error in converting uuid"))
            product_uuid)
        >>= λ id.
            served (validated_as_error validate (make id))
              (text "[ProductGrpcServiceServer_GetProductById.StructCtx] query validation failed")
              send
              (text
                "[ProductGrpcServiceServer_GetProductById.Send] error in sending GetProductById")
              (λ result.
                map_err
                  (annotated
                    (text "[ProductGrpcServiceServer_GetProductById.Map] error in mapping product"))
                  (map_product result))

    -- The items of the order are mapped first.
    unfoldable pub create_order_grpc :
        {I : Type 0} → Outcome GoError I → (I → C) → (R → A) → Action W GoError A
    create_order_grpc shop_items make answer = lift shop_items >>= λ items.
        served (validated validate (make items))
          (text "[OrderGrpcServiceServer_CreateOrder.StructCtx] command validation failed") send
          (text "[ProductGrpcServiceServer_CreateOrder.Send] error in sending CreateOrder")
          (λ result. ok (answer result))

    unfoldable pub get_order_by_id_grpc :
        Outcome GoError ℕ → (ℕ → C) → (R → Outcome GoError A) → Action W GoError A
    get_order_by_id_grpc order_id_uuid make map_order =
        lift (
          map_err
            (bad_request (
              text
                "[OrderGrpcServiceServer_GetOrderByID.uuid.FromString] error in converting uuid"))
            order_id_uuid)
        >>= λ id.
            served (validated validate (make id))
              (text "[OrderGrpcServiceServer_GetOrderByID.StructCtx] query validation failed") send
              (text "[OrderGrpcServiceServer_GetOrderByID.Send] error in sending GetOrderById")
              (λ result.
                map_err
                  (annotated
                    (text "[OrderGrpcServiceServer_GetOrderByID.Map] error in mapping order"))
                  (map_order result))

  unfoldable pub get_orders_grpc :
      C → (C → Action W GoError R) → (R → Outcome GoError A) → Action W GoError A
  get_orders_grpc query send map_orders =
      wrap (annotated (text "[OrderGrpcServiceServer_GetOrders.Send] error in sending GetOrders"))
        (send query)
      >>= λ result. lift (
          map_err
            (annotated (text "[OrderGrpcServiceServer_GetOrders.Map] error in mapping orders"))
            (map_orders result))

-- `SubmitOrder` and `UpdateShoppingCart` of the gRPC server of orders do nothing.
abbrev pub submit_order_grpc : {A : Type 0} → Outcome GoError (Option A)
submit_order_grpc = ok none

abbrev pub update_shopping_cart_grpc : {A : Type 0} → Outcome GoError (Option A)
update_shopping_cart_grpc = ok none
