-- ===== src/Catalogs/Storing.antt =====
-- Products and their rows (the handlers of internal/services/catalogwriteservice/internal/products/features
-- on the database context of internal/pkg/postgresgorm).
use go_ecommerce_microservic.Common.{ℕ, false, Text, ◌≡◌, Option, none, some, Outcome, ok, ◌==◌}
use go_ecommerce_microservic.HttpErrors.Chain.{GoError}
use go_ecommerce_microservic.Postgresgorm.{GormDb}
use go_ecommerce_microservic.Catalogs.{
  ProductDataModel, ProductEvent, product_created_v1, CreateProduct, ProductHandlerParams,
  catalogs_context, product_to_data_model, data_model_to_product, product_to_dto,
}
use go_ecommerce_microservic.Catalogs.Answers.{new_product}

-- The row of a product that gorm has created: it fills the time of the update in.
abbrev pub new_row : {F : Type 0} → ℕ → CreateProduct F → ProductDataModel F
new_row time command = record (product_to_data_model (new_product command)) { updated_at = time }

-- What the table keeps of a row: `kept` is what a column of times, which has microseconds, keeps of a time.
abbrev pub kept_row : {F : Type 0} → (ℕ → ℕ) → ProductDataModel F → ProductDataModel F
kept_row kept row = record row {
  created_at = kept row.created_at;
  updated_at = kept row.updated_at;
}

-- The documented behaviour of gorm on a table of products, as far as it is used: `Create` of a new id,
-- with a time of creation, which gives back the row as it was passed, and `First` of an id that has a row.
pub record IsProductTable {W F : Type 0} (db : GormDb W (ProductDataModel F)) (clock : W → ℕ)
    (kept : ℕ → ℕ) (rows : W → ℕ → Option (ProductDataModel F)) : Type 0 where
  pub inserted :
      (command : CreateProduct F) (w : W)
      → rows w command.product_id ≡ none
      → (command.created_at == 0) ≡ false
      → (let r = db.create (product_to_data_model (new_product command)) w in
          (r.0 ≡ ok (new_row (clock w) command))
          × (rows r.1 command.product_id ≡ some (kept_row kept (new_row (clock w) command))))
  pub selected :
      (id : ℕ) (row : ProductDataModel F) (w : W)
      → rows w id ≡ some row
      → db.first id w ≡ (ok row, w)

module _ {W F : Type 0} (db : GormDb W (ProductDataModel F)) (show_id : ℕ → Text)
    (publish : ProductEvent F → W → Outcome {0, 0} GoError Unit × W) (message_id now : ℕ) where
  -- The handlers' parameters as the service makes them, in the transaction of a context.
  abbrev pub params : Option (GormDb W (ProductDataModel F)) → ProductHandlerParams W F
  params transaction = record {
    context = catalogs_context db transaction show_id;
    publish_message = publish;
    message_id = message_id;
    now = now;
    map_product_dto = λ p. ok (product_to_dto p);
  }

module _ {W F : Type 0} (db : GormDb W (ProductDataModel F)) (show_id : ℕ → Text)
    (publish : ProductEvent F → W → Outcome {0, 0} GoError Unit × W) (message_id now : ℕ)
    (clock : W → ℕ) (kept : ℕ → ℕ) (rows : W → ℕ → Option (ProductDataModel F))
    (table : IsProductTable db clock kept rows) (command : CreateProduct F) (w : W) where
  abbrev row : ProductDataModel F
  row = new_row (clock w) command

  abbrev after_create : W
  after_create = (db.create (product_to_data_model (new_product command)) w).1

  abbrev event : ProductEvent F
  event = product_created_v1 message_id now (product_to_dto (data_model_to_product row))
