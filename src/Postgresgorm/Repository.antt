-- ===== src/Postgresgorm/Repository.antt =====
-- internal/pkg/postgresgorm/repository/gorm_generic_repository.go: a repository of entities `E`, stored as
-- data models `D`. gorm, the fields that reflection finds and the mapper are parameters. What an operation
-- writes through the pointer to an entity is its answer.
pub mod Deleting
use go_ecommerce_microservic.Common.{
  ℕ, Bool, Text, text, ◌++◌, List, [], ◌∷◌, Option, none, some, Outcome, ok, err, panic, Action,
  pure, lift, wrap, ◌>>=◌, ◌>>◌,
}
use go_ecommerce_microservic.HttpErrors.Chain.{GoError, leaf, annotated}
use go_ecommerce_microservic.HttpErrors.CustomErrors.{new_not_found_error_wrap}
use go_ecommerce_microservic.Pagination.{ListQuery}
use go_ecommerce_microservic.Specification.{Specification, get_query, get_values}
use go_ecommerce_microservic.GenericRepository.{DataModel, data_of, entity_of, entities_of, each}
use go_ecommerce_microservic.Mongodb.{ListResult}
use go_ecommerce_microservic.Postgresgorm.Queries.{
  Argument, where_true, where_fields, Query, no_conditions, also, paginate, search_query,
}

-- What `First` fails with: `gorm.ErrRecordNotFound` in its chain, or another error.
pub data FirstError : Type 0 where
  record_not_found : FirstError
  failed : GoError → FirstError

abbrev pub first_error : FirstError → GoError
first_error record_not_found = leaf (text "record not found")
first_error (failed e) = e

-- What is asked of gorm for the table of a data model. `Create` and `Save` leave what they wrote in the
-- data model; rows are read into data models, or into entities; `delete_entity` deletes by the id in the table
-- that gorm finds for the type of entities, which may be another one or none; the error of `Count` is not looked at.
pub record GormTable (W D E : Type 0) : Type 0 where
  pub create : D → Action W GoError D
  pub save : D → Action W GoError D
  pub first : ℕ → Action W FirstError D
  pub find : Query → Action W GoError (List D)
  pub find_entities : Query → Action W GoError (List E)
  pub delete_entity : E → ℕ → Action {0, 0, 0} W GoError Unit
  pub count_all : W → ℕ × W

pub record GormGenericRepository (W D E : Type 0) : Type 1 where
  pub db : GormTable W D E
  pub models : DataModel E D
  pub show_id : ℕ → Text
  pub all_fields : List (Text × Bool)
  pub to_snake : Text → Text
  pub to_lower : Text → Text
  pub get_total_pages : ℕ → ℕ → ℕ

module _ {W D E : Type 0} (r : GormGenericRepository W D E) where
  unfoldable pub add : E → Action W GoError E
  add entity = lift (data_of r.models entity) >>= λ data_model.
      r.db.create data_model >>= λ created. lift (entity_of r.models created)

  unfoldable pub add_all : List E → Action W GoError (List E)
  unfolding add
  add_all entities = each add entities

  abbrev pub cant_find : ℕ → Text
  cant_find id =
      text "can't find the entity with id " ++ (r.show_id id ++ text " into the database.")

  abbrev pub found : Text → Outcome FirstError D → Outcome GoError D
  found message (ok d) = ok d
  found message (err record_not_found) =
      err (new_not_found_error_wrap (some (first_error record_not_found)) message)
  found message (err (failed e)) = err (annotated message e)
  found message panic = panic

  abbrev pub find_first : ℕ → Action W GoError D
  find_first id w = let (result, w') = r.db.first id w in (found (cant_find id) result, w')

  unfoldable pub get_by_id : ℕ → Action W GoError E
  get_by_id id = find_first id >>= λ data_model. lift (entity_of r.models data_model)

  unfoldable pub get_all : ListQuery → Action W GoError (ListResult E)
  unfolding paginate
  get_all list_query = paginate r.get_total_pages r.db.find_entities list_query no_conditions

  unfoldable pub search : Text → ListQuery → Action W GoError (ListResult E)
  unfolding paginate search_query
  search search_term list_query =
      paginate r.get_total_pages r.db.find_entities list_query
        (search_query r.to_snake r.to_lower search_term r.all_fields no_conditions)

  abbrev pub find_models : Query → Action W GoError (List E)
  find_models q = r.db.find q >>= λ data_models. lift (entities_of r.models data_models)

  unfoldable pub get_by_filter : List (Text × Argument) → Action W GoError (List E)
  get_by_filter filters = find_models (also (where_fields filters) no_conditions)

  abbrev pub get_by_func_filter : (E → Bool) → Outcome GoError (List E)
  get_by_func_filter filter_func = ok []

  -- The database is not asked: the answer is always the zero value.
  abbrev pub first_or_default : List (Text × Argument) → Outcome GoError (Option E)
  first_or_default filters = ok none

  unfoldable pub update : E → Action W GoError E
  update entity = lift (data_of r.models entity) >>= λ data_model.
      r.db.save data_model >>= λ saved. lift (entity_of r.models saved)

  unfoldable pub update_all : List E → Action W GoError (List E)
  unfolding update
  update_all entities = each update entities

  unfoldable pub delete : ℕ → Action {0, 0, 0} W GoError Unit
  unfolding get_by_id
  delete id = get_by_id id >>= λ entity. r.db.delete_entity entity id

  unfoldable pub skip_take : ℕ → ℕ → Action W GoError (List E)
  skip_take skip take = find_models (record no_conditions { offset = some skip; limit = some take })

  unfoldable pub count : W → ℕ × W
  count w = r.db.count_all w

  unfoldable pub find_by_specification : Specification Argument → Action W GoError (List E)
  unfolding get_query get_values
  find_by_specification specification =
      find_models
        (also (where_true (get_query specification) (get_values specification)) no_conditions)
