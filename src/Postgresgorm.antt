-- ===== src/Postgresgorm.antt =====
-- internal/pkg/postgresgorm: the operations on models of gormdbcontext, and transactions round a request
-- (pipelines/mediator_transaction_pipeline.go). `W` is the database's state, `D` a data model and `M` a
-- model; the calls of gorm and of the mapper are parameters. Logs are left out.
pub mod Transacting
pub mod Queries
pub mod Repository
mod Tests
use go_ecommerce_microservic.Common.{
  ℕ, Bool, true, false, Text, text, ◌++◌, Option, none, some, Outcome, ok, err, panic, Action, lift,
  wrap, map_err, ◌>>=◌, ltb,
}
use go_ecommerce_microservic.HttpErrors.Chain.{GoError}
use go_ecommerce_microservic.HttpErrors.CustomErrors.{
  new_conflict_error_wrap, new_internal_server_error_wrap, new_not_found_error,
  new_not_found_error_wrap,
}

-- What is asked of gorm: `Create` and `Updates` leave what they wrote in the data model.
pub record GormDb (W D : Type 0) : Type 0 where
  pub create : D → Action W GoError D
  pub updates : D → Action W GoError D
  pub first : ℕ → Action W GoError D
  pub count_by_id : ℕ → W → ℕ × W
  pub delete_by_id : ℕ → Action {0, 0, 0} W GoError Unit

-- A context of the database for a data model: its handle, the transaction of the Go context, if there is
-- one, the names of the types in snake case, and `mapper.Map`.
pub record GormDbContext (W D M : Type 0) : Type 0 where
  pub db : GormDb W D
  pub transaction : Option (GormDb W D)
  pub show_id : ℕ → Text
  pub data_model_name : Text
  pub model_name : Text
  pub to_data_model : M → Outcome GoError D
  pub to_model : D → Outcome GoError M

abbrev pub transaction_or : {W D : Type 0} → Option (GormDb W D) → GormDb W D → GormDb W D
transaction_or none db = db
transaction_or (some transaction) db = transaction

module _ {W D M : Type 0} (c : GormDbContext W D M) where
  abbrev pub tx_db : GormDb W D
  tx_db = transaction_or c.transaction c.db

  abbrev pub not_found_text : ℕ → Text
  not_found_text id =
      c.data_model_name
      ++ (text " with id `" ++ (c.show_id id ++ text "` not found in the database"))

  abbrev pub mapping_error : Text → GoError → GoError
  mapping_error name e =
      new_internal_server_error_wrap (some e) (text "error in the mapping " ++ name)

  abbrev pub mapped_model : D → Outcome GoError M
  mapped_model data_model = map_err (mapping_error c.model_name) (c.to_model data_model)

  abbrev pub mapped_data_model : M → Outcome GoError D
  mapped_data_model model = map_err (mapping_error c.data_model_name) (c.to_data_model model)

  -- The transaction is not used.
  unfoldable pub exists_model : ℕ → W → Bool × W
  exists_model id w = let (count, w') = c.db.count_by_id id w in (ltb 0 count, w')

  -- The transaction is not used.
  unfoldable pub find_data_model_by_id : ℕ → Action W GoError D
  find_data_model_by_id id =
      wrap (λ e. new_not_found_error_wrap (some e) (not_found_text id)) (c.db.first id)

  unfoldable pub find_model_by_id : ℕ → Action W GoError M
  unfolding find_data_model_by_id
  find_model_by_id id = find_data_model_by_id id >>= λ data_model. lift (mapped_model data_model)

  abbrev pub delete_existing : ℕ → Bool → Action {0, 0, 0} W GoError Unit
  delete_existing id false = lift (err (new_not_found_error (not_found_text id)))
  delete_existing id true =
      wrap
        (λ e. new_internal_server_error_wrap (some e) (
          text "error in deleting "
          ++ (c.data_model_name
              ++ (text " with id `" ++ (c.show_id id ++ text "` in the database")))))
        (tx_db.delete_by_id id)

  unfoldable pub delete_data_model_by_id : ℕ → Action {0, 0, 0} W GoError Unit
  unfolding exists_model
  delete_data_model_by_id id w = let (found, w') = exists_model id w in delete_existing id found w'

  abbrev pub created : Text → D → Action W GoError D
  created name data_model =
      wrap (λ e. new_conflict_error_wrap (some e) (name ++ text " already exists"))
        (tx_db.create data_model)

  abbrev pub updated : Text → D → Action W GoError D
  updated name data_model =
      wrap (λ e. new_internal_server_error_wrap (some e) (text "error in updating the " ++ name))
        (tx_db.updates data_model)

  unfoldable pub add_data_model : D → Action W GoError D
  add_data_model data_model = created c.data_model_name data_model

  unfoldable pub add_model : M → Action W GoError M
  add_model model = lift (mapped_data_model model) >>= λ data_model.
      created c.model_name data_model >>= λ result. lift (mapped_model result)

  unfoldable pub update_data_model : D → Action W GoError D
  update_data_model data_model = updated c.data_model_name data_model

  unfoldable pub update_model : M → Action W GoError M
  update_model model = lift (mapped_data_model model) >>= λ data_model.
      updated c.model_name data_model >>= λ result. lift (mapped_model result)

-- `Begin`, `Commit` and `Rollback`, for a handle `T`.
pub record Transactions (W D T : Type 0) : Type 0 where
  pub begin : W → T × W
  pub handle_of : T → GormDb W D
  pub commit : T → Action {0, 0, 0} W GoError Unit
  pub rollback : T → W → W

module _ {W D T R : Type 0} (transactions : Transactions W D T) where
  -- A panic is caught, and what is returned then is nil, without an error.
  abbrev pub committed : T → R → Outcome {0, 0} GoError Unit × W → Outcome GoError (Option R) × W
  committed tx result (ok a, w) = (ok (some result), w)
  committed tx result (err e, w) = (err e, w)
  committed tx result (panic, w) = (ok none, transactions.rollback tx w)

  abbrev pub ended : T → Outcome GoError R × W → Outcome GoError (Option R) × W
  ended tx (ok result, w) = committed tx result (transactions.commit tx w)
  ended tx (err e, w) = (err e, transactions.rollback tx w)
  ended tx (panic, w) = (ok none, transactions.rollback tx w)

  abbrev pub begun :
      (Option (GormDb W D) → Action W GoError R) → T × W → Outcome GoError (Option R) × W
  begun next (tx, w) = ended tx (next (some (transactions.handle_of tx)) w)

  abbrev pub answered : Outcome GoError R × W → Outcome GoError (Option R) × W
  answered (ok result, w) = (ok (some result), w)
  answered (err e, w) = (err e, w)
  answered (panic, w) = (panic, w)

  -- `Handle` of the pipeline: the next handler takes the transaction of its context.
  unfoldable pub mediator_transaction_pipeline :
      Bool → (Option (GormDb W D) → Action W GoError R) → Action W GoError (Option R)
  mediator_transaction_pipeline true next w = begun next (transactions.begin w)
  mediator_transaction_pipeline false next w = answered (next none w)

module _ {W D T : Type 0} (transactions : Transactions W D T) where
  abbrev pub committed_action :
      T → Outcome {0, 0} GoError Unit × W → Outcome {0, 0} GoError Unit × W
  committed_action tx (ok a, w) = (ok tt, w)
  committed_action tx (err e, w) = (err e, w)
  committed_action tx (panic, w) = (ok tt, transactions.rollback tx w)

  abbrev pub ended_action : T → Outcome {0, 0} GoError Unit × W → Outcome {0, 0} GoError Unit × W
  ended_action tx (ok a, w) = committed_action tx (transactions.commit tx w)
  ended_action tx (err e, w) = (err e, transactions.rollback tx w)
  ended_action tx (panic, w) = (ok tt, transactions.rollback tx w)

  abbrev pub begun_action :
      (GormDb W D → Action {0, 0, 0} W GoError Unit) → T × W → Outcome {0, 0} GoError Unit × W
  begun_action action (tx, w) = ended_action tx (action (transactions.handle_of tx) w)

  -- `RunInTx`: the action takes the transaction of its context; a panic is caught here too.
  unfoldable pub run_in_tx :
      (GormDb W D → Action {0, 0, 0} W GoError Unit) → Action {0, 0, 0} W GoError Unit
  run_in_tx action w = begun_action action (transactions.begin w)
