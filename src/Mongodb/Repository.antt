-- ===== src/Mongodb/Repository.antt =====
-- internal/pkg/mongodb/repository/mongo_generic_repository.go: a repository of entities `E`, stored as
-- data models `D`. The fields of a data model, which are found by reflection, and the mapper are parameters.
-- What an operation writes through the pointer to an entity is its answer.
use go_ecommerce_microservic.Common.{
  ℕ, Bool, true, false, Text, text, ◌++◌, List, [], ◌∷◌, Option, none, some, Outcome, ok, err,
  panic, bind, Action, lift, wrap, ◌>>=◌, ◌>>◌,
}
use go_ecommerce_microservic.HttpErrors.Chain.{GoError, leaf, annotated}
use go_ecommerce_microservic.HttpErrors.CustomErrors.{new_not_found_error_wrap}
use go_ecommerce_microservic.Pagination.{ListQuery}
use go_ecommerce_microservic.GenericRepository.{
  DataModel, data_of, entity_of, entities_of, entity_after, each,
}
use go_ecommerce_microservic.Mongodb.{
  BsonValue, bson_string, FieldRegex, everything, fields, any_of, by_id, FindError, no_documents,
  failed, find_error, Cursor, end, broken, document, Collection, ListResult,
  list_result_to_list_result_dto, and_rest, paginate,
}

-- A repository: its collection, the text of an id, the fields of a data model by name, the names of
-- all fields with whether they are texts, `strcase.ToLowerCamel` and the number of pages.
pub record MongoGenericRepository (W D E : Type 0) : Type 1 where
  pub collection : Collection W D
  pub models : DataModel E D
  pub show_id : ℕ → Text
  pub get_field_value_by_name : D → Text → Option BsonValue
  pub all_fields : List (Text × Bool)
  pub to_lower_camel : Text → Text
  pub get_total_pages : ℕ → ℕ → ℕ

module _ {D : Type 0} where
  -- The loop over a cursor: `Next` is false at its end, and also where it broke off.
  abbrev pub decode_each : Cursor D → Outcome GoError (List D)
  decode_each end = ok []
  decode_each (broken e) = ok []
  decode_each (document (ok d) cursor) = and_rest d (decode_each cursor)
  decode_each (document (err e) cursor) = err (annotated (text "Find") e)
  decode_each (document panic cursor) = panic

  abbrev pub found : Text → Outcome FindError D → Outcome GoError D
  found message (ok d) = ok d
  found message (err no_documents) =
      err (new_not_found_error_wrap (some (find_error no_documents)) message)
  found message (err (failed e)) = err (annotated message e)
  found message panic = panic

  -- A document that is not there is a zero value, without an error.
  abbrev pub found_or_default : Outcome FindError D → Outcome GoError (Option D)
  found_or_default (ok d) = ok (some d)
  found_or_default (err no_documents) = ok none
  found_or_default (err (failed e)) = err e
  found_or_default panic = panic

  abbrev pub first_some : Option D → Option D → Option D
  first_some (some d) other = some d
  first_some none other = other

abbrev pub search_fields : (Text → Text) → Text → List (Text × Bool) → List FieldRegex
search_fields to_lower_camel search_term [] = []
search_fields to_lower_camel search_term ((name, true) ∷ rest) =
    record { name = to_lower_camel name; pattern = search_term; options = [] }
    ∷ search_fields to_lower_camel search_term rest
search_fields to_lower_camel search_term ((name, false) ∷ rest) =
    search_fields to_lower_camel search_term rest

module _ {W D E : Type 0} (m : MongoGenericRepository W D E) where
  unfoldable pub add : E → Action W GoError E
  add entity = lift (data_of m.models entity) >>= λ data_model.
      m.collection.insert_one data_model >> lift (entity_of m.models data_model)

  unfoldable pub add_all : List E → Action W GoError (List E)
  unfolding add
  add_all entities = each add entities

  abbrev pub cant_find : ℕ → Text
  cant_find id =
      text "can't find the entity with id " ++ (m.show_id id ++ text " into the database.")

  abbrev pub found_in : ℕ → Outcome FindError D × W → Outcome GoError D × W
  found_in id (r, w) = (found (cant_find id) r, w)

  unfoldable pub get_by_id : ℕ → Action W GoError E
  get_by_id id =
      (λ w. found_in id (m.collection.find_one (by_id (bson_string (m.show_id id))) w))
      >>= λ data_model. lift (entity_of m.models data_model)

  unfoldable pub get_all : ListQuery → Action W GoError (ListResult E)
  unfolding paginate
  get_all list_query = paginate m.get_total_pages m.collection list_query everything >>= λ result.
      lift (list_result_to_list_result_dto (entities_of m.models) result)

  unfoldable pub search : Text → ListQuery → Action W GoError (ListResult E)
  unfolding paginate
  search search_term list_query =
      paginate m.get_total_pages m.collection list_query
        (any_of (search_fields m.to_lower_camel search_term m.all_fields))
      >>= λ result. lift (list_result_to_list_result_dto (entities_of m.models) result)

  unfoldable pub get_by_filter : List (Text × BsonValue) → Action W GoError (List E)
  get_by_filter filters = m.collection.find (fields filters) none >>= λ cursor.
      lift (decode_each cursor) >>= λ data_models. lift (entities_of m.models data_models)

  abbrev pub get_by_func_filter : (E → Bool) → Outcome GoError (List E)
  get_by_func_filter filter_func = ok []

  abbrev pub or_default_in : Outcome FindError D × W → Outcome GoError (Option D) × W
  or_default_in (r, w) = (found_or_default r, w)

  abbrev pub optional_entity : Option D → Outcome GoError (Option E)
  optional_entity none = ok none
  optional_entity (some data_model) =
      bind (entity_of m.models data_model) λ entity. ok (some entity)

  unfoldable pub first_or_default : List (Text × BsonValue) → Action W GoError (Option E)
  first_or_default filters =
      (λ w. or_default_in (m.collection.find_one (fields filters) w)) >>= λ data_model.
      lift (optional_entity data_model)

  abbrev pub id_of : D → Outcome GoError BsonValue
  id_of data_model = elim (m.get_field_value_by_name data_model (text "Id")) [
    | some id ↦ ok id
    | none ↦ elim (m.get_field_value_by_name data_model (text "ID")) [
      | some id ↦ ok id
      | none ↦ err (leaf (text "id field not found"))
    ]
  ]

  unfoldable pub update : E → Action W GoError E
  update entity = lift (data_of m.models entity) >>= λ data_model. lift (id_of data_model) >>= λ id.
      wrap find_error (m.collection.find_one_and_update (by_id id) data_model) >>= λ updated.
      lift (entity_after m.models entity updated)

  unfoldable pub update_all : List E → Action W GoError (List E)
  unfolding update
  update_all entities = each update entities

  unfoldable pub delete : ℕ → Action {0, 0, 0} W GoError Unit
  delete id =
      wrap find_error (m.collection.find_one_and_delete (by_id (bson_string (m.show_id id))))

  unfoldable pub skip_take : ℕ → ℕ → Action W GoError (List E)
  skip_take skip take = m.collection.find everything (some (skip, take)) >>= λ cursor.
      lift (decode_each cursor) >>= λ data_models. lift (entities_of m.models data_models)

  abbrev pub counted : Outcome GoError ℕ → Outcome GoError ℕ
  counted (err e) = ok 0
  counted r = r

  unfoldable pub count : Action W GoError ℕ
  count w = let (r, w') = m.collection.count_documents everything w in (counted r, w')

  -- `Find` is not implemented.
  abbrev pub find_by_specification : Outcome GoError (List E)
  find_by_specification = panic
