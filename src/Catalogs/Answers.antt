-- ===== src/Catalogs/Answers.antt =====
-- What a client of the catalog is told when the database refuses (the handlers of
-- internal/services/catalogwriteservice/internal/products/features, answered through
-- problem_detail_parser.go).
use go_ecommerce_microservic.Common.{
  ℕ, Text, text, [], ◌≡◌, refl, ap, Option, none, some, Outcome, ok, err, panic,
}
use go_ecommerce_microservic.HttpErrors.Chain.{Kind, GoError, find_as, any_kind}
use go_ecommerce_microservic.HttpErrors.CustomErrors.{
  new_conflict_error_wrap, new_not_found_error, new_not_found_error_wrap,
  new_application_error_wrap_with_code, is_domain_kind, is_domain_error, is_application_error,
  fresh, wrapped,
}
use go_ecommerce_microservic.HttpErrors.ProblemDetails.{
  Env, parse_error, parse_custom_error, new_application_problem_detail, new_problem_detail,
}
use go_ecommerce_microservic.HttpErrors.Classes.{find_as-none, parse_error-one_custom, map_reported}
use go_ecommerce_microservic.Postgresgorm.{
  tx_db, add_model, find_model_by_id, find_data_model_by_id, delete_data_model_by_id, exists_model,
}
use go_ecommerce_microservic.Catalogs.{
  Product, ProductDataModel, CreateProduct, UpdateProduct, ProductHandlerParams, create_product,
  update_product, delete_product, get_product_by_id,
}

abbrev pub first_of : Option (ℕ × Text) → Option ℕ
first_of none = none
first_of (some (status, detail)) = some status

-- The HTTP status of the answer to an error.
abbrev pub answered_status : Env → GoError → Option ℕ
answered_status env e = first_of (map_reported (parse_error env (some e)))

module _ {A : Type 0} where
  abbrev pub told : Env → Outcome GoError A → Option ℕ
  told env (ok a) = none
  told env (err e) = answered_status env e
  told env panic = none

conflict-answered :
    (env : Env) (e : GoError) (message : Text)
    → find_as any_kind e ≡ none
    → answered_status env (new_conflict_error_wrap (some e) message) ≡ some 409
unfolding new_conflict_error_wrap
conflict-answered env e message plain = ap first_of (
    parse_error-one_custom env [] Kind.conflict 409 message
      (wrapped (text "conflict error") message e) plain)

not_found-answered :
    (env : Env) (e : GoError) (message : Text)
    → find_as any_kind e ≡ none
    → answered_status env (new_not_found_error_wrap (some e) message) ≡ some 404
unfolding new_not_found_error_wrap
not_found-answered env e message plain = ap first_of (
    parse_error-one_custom env [] Kind.not_found 404 message
      (wrapped (text "not found error") message e) plain)

fresh_not_found-answered :
    (env : Env) (message : Text) → answered_status env (new_not_found_error message) ≡ some 404
unfolding new_not_found_error
fresh_not_found-answered env message = ap first_of (
    parse_error-one_custom env [] Kind.not_found 400 message
      (fresh (text "not found error") message) refl)

application-answered :
    (env : Env) (e : GoError) (inner outer : Text)
    → find_as any_kind e ≡ none
    → answered_status env (
        new_application_error_wrap_with_code
          (some (new_not_found_error_wrap (some e) inner))
          404
          outer)
      ≡ some 404
unfolding new_application_error_wrap_with_code new_not_found_error_wrap parse_error
    parse_custom_error is_domain_error is_application_error new_application_problem_detail
    new_problem_detail
application-answered env e inner outer plain = rw (find_as-none is_domain_kind e plain)

abbrev pub new_product : {F : Type 0} → CreateProduct F → Product F
new_product command = record {
  id = command.product_id;
  name = command.name;
  description = command.description;
  price = command.price;
  created_at = command.created_at;
  updated_at = 0;
}

module _ {W F : Type 0} (env : Env) (c : ProductHandlerParams W F) (e : GoError)
    (plain : find_as any_kind e ≡ none) where
  create_product-refused :
      (command : CreateProduct F) (row : ProductDataModel F) (w w' : W)
      → c.context.to_data_model (new_product command) ≡ ok row
      → (tx_db c.context).create row w ≡ (err e, w')
      → told env (create_product c command w).0 ≡ some 409
  unfolding create_product add_model
  create_product-refused command row w w' mapped refused =
      rw (create_product, add_model, mapped, refused) (conflict-answered env e _ plain)

  get_product_by_id-missing :
      (id : ℕ) (w w' : W)
      → c.context.db.first id w ≡ (err e, w')
      → told env (get_product_by_id c id w).0 ≡ some 404
  unfolding get_product_by_id find_model_by_id find_data_model_by_id
  get_product_by_id-missing id w w' missing =
      rw (get_product_by_id, find_model_by_id, find_data_model_by_id, missing)
        (not_found-answered env e _ plain)

  update_product-missing :
      (command : UpdateProduct F) (w w' : W)
      → c.context.db.first command.product_id w ≡ (err e, w')
      → told env (update_product c command w).0 ≡ some 404
  unfolding update_product find_model_by_id find_data_model_by_id
  update_product-missing command w w' missing =
      rw (update_product, find_model_by_id, find_data_model_by_id, missing)
        (application-answered env e _ _ plain)

  delete_product-missing :
      (id : ℕ) (w w' : W)
      → c.context.db.count_by_id id w ≡ (0, w')
      → told env (delete_product c id w).0 ≡ some 404
  unfolding delete_product delete_data_model_by_id exists_model
  delete_product-missing id w w' missing =
      rw (delete_product, delete_data_model_by_id, exists_model, missing)
        (fresh_not_found-answered env _)

  -- A client that asks for a product without a row, or wants it updated or deleted, is told the HTTP
  -- status 404, when the error of the database holds no custom error, whatever the state of the
  -- database was left in.
  pub missing_product-told :
      (command : UpdateProduct F) (w w' w'' : W)
      → c.context.db.first command.product_id w ≡ (err e, w')
      → c.context.db.count_by_id command.product_id w ≡ (0, w'')
      → (told env (get_product_by_id c command.product_id w).0 ≡ some 404)
        × (told env (update_product c command w).0 ≡ some 404)
        × (told env (delete_product c command.product_id w).0 ≡ some 404)
  missing_product-told command w w' w'' missing none_counted = (
    get_product_by_id-missing command.product_id w w' missing,
    update_product-missing command w w' missing,
    delete_product-missing command.product_id w w'' none_counted,
  )
