-- ===== src/CatalogReads/Consumers.antt =====
-- The consumers of the integration events of the catalog, in internal/services/catalogreadservice/internal/products/
-- features (product_created_consumer.go, product_updated_consumer.go, product_deleted_consumer.go), with the
-- events and the constructors of their commands. The validation of a command, the mediator's `Send` and the
-- parsing of a uuid are parameters, as are the id and the time that a command draws; logs and spans are left out.
pub mod Refusals
mod Tests
use go_ecommerce_microservic.Common.{
  ℕ, Text, text, ◌++◌, Option, none, some, Outcome, ok, err, panic, bind, Action, pure, lift, wrap,
  map_err, ◌>>=◌, ◌>>◌,
}
use go_ecommerce_microservic.HttpErrors.Chain.{GoError, leaf, annotated}
use go_ecommerce_microservic.HttpErrors.CustomErrors.{
  new_validation_error_wrap, new_bad_request_error_wrap,
}
use go_ecommerce_microservic.CatalogReads.{CreateProduct, UpdateProduct}

-- `ProductCreatedV1`, `ProductUpdatedV1` and `ProductDeletedV1`, less the base of messages.
module _ (F : Type 0) where
  pub record ProductCreated : Type 0 where
    pub product_id : Text
    pub name : Text
    pub description : Text
    pub price : F
    pub created_at : ℕ

  pub record ProductUpdated : Type 0 where
    pub product_id : Text
    pub name : Text
    pub description : Text
    pub price : F
    pub updated_at : ℕ

pub record ProductDeleted : Type 0 where
  pub product_id : Text

-- The libraries: validation (nil is a valid command), mediator, and uuids with their texts.
pub record CatalogLibraries (W F : Type 0) : Type 0 where
  pub validate_create : CreateProduct F → Option GoError
  pub validate_update : UpdateProduct F → Option GoError
  pub validate_delete : Text → Option GoError
  pub send_create : CreateProduct F → Action W GoError Text
  pub send_update : UpdateProduct F → Action {0, 0, 0} W GoError Unit
  pub send_delete : Text → Action {0, 0, 0} W GoError Unit
  pub uuid_from_string : Text → Outcome GoError Text

abbrev pub unless_refused : {A : Type 0} → A → Option GoError → Outcome GoError A
unless_refused command none = ok command
unless_refused command (some e) = err e

-- `message, ok := consumeContext.Message().(*T)`
abbrev pub casted : {A : Type 0} → Text → Option A → Outcome GoError A
casted message none = err (leaf message)
casted message (some a) = ok a

module _ {W F : Type 0} (lib : CatalogLibraries W F) where
  unfoldable pub new_create_product :
      Text → Text → Text → Text → F → ℕ → Outcome GoError (CreateProduct F)
  new_create_product new_id product_id name description price created_at =
      let command : CreateProduct F = record {
        id = new_id;
        product_id = product_id;
        name = name;
        description = description;
        price = price;
        created_at = created_at;
      } in
      unless_refused command (lib.validate_create command)

  unfoldable pub new_update_product : ℕ → Text → Text → Text → F → Outcome GoError (UpdateProduct F)
  new_update_product now product_id name description price =
      let command : UpdateProduct F = record {
        product_id = product_id;
        name = name;
        description = description;
        price = price;
        updated_at = now;
      } in
      unless_refused command (lib.validate_update command)

  -- A command to delete is the id of its product.
  unfoldable pub new_delete_product : Text → Outcome GoError Text
  new_delete_product product_id = unless_refused product_id (lib.validate_delete product_id)

  abbrev pub invalid : GoError → GoError
  invalid e = new_validation_error_wrap (some e) (text "command validation failed")

  unfoldable pub product_created_consumer :
      Text → Option (ProductCreated F) → Action {0, 0, 0} W GoError Unit
  unfolding new_create_product
  product_created_consumer new_id message =
      lift (casted (text "error in casting message to ProductCreatedV1") message) >>= λ product.
      lift (
        map_err invalid (
          new_create_product new_id product.product_id product.name product.description
            product.price product.created_at))
      >>= λ command.
          wrap
            (annotated (
              text "error in sending CreateProduct with id: {" ++ (command.product_id ++ text "}")))
            (lib.send_create command)
          >>= λ id. pure tt

  -- The errors of the uuid and of the validation are logged with their kinds and given back without them.
  unfoldable pub product_updated_consumer :
      ℕ → Option (ProductUpdated F) → Action {0, 0, 0} W GoError Unit
  unfolding new_update_product
  product_updated_consumer now message =
      lift (casted (text "error in casting message to ProductUpdatedV1") message) >>= λ product.
      lift (lib.uuid_from_string product.product_id) >>= λ product_uuid.
      lift (new_update_product now product_uuid product.name product.description product.price)
      >>= λ command.
          wrap
            (annotated (text "[updateProductConsumer_Consume.Send] error in sending UpdateProduct"))
            (lib.send_update command)

  unfoldable pub product_deleted_consumer : Option ProductDeleted → Action {0, 0, 0} W GoError Unit
  unfolding new_delete_product
  product_deleted_consumer message =
      lift (casted (text "error in casting message to ProductDeletedV1") message) >>= λ product.
      lift (
        map_err (λ e. new_bad_request_error_wrap (some e) (text "error in the converting uuid"))
          (lib.uuid_from_string product.product_id))
      >>= λ product_uuid. lift (map_err invalid (new_delete_product product_uuid)) >>= λ command.
          lib.send_delete command
