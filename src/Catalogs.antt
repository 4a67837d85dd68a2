-- ===== src/Catalogs.antt =====
-- internal/services/catalogwriteservice/internal/products: products, their mappings, and the handlers that
-- create, update, delete and get them. float64 is a type `F`; the ids and times that commands and messages
-- draw, and the publishing of a message, are parameters. The validation of commands, the lists of products
-- and logs are left out.
pub mod Repository
pub mod Answers
pub mod Storing
mod Tests
use go_ecommerce_microservic.Common.{
  ℕ, Bool, true, false, ◌&&◌, ◌||◌, List, [], ◌∷◌, Text, text, text_eq, ◌++◌, Option, none, some,
  Outcome, ok, Action, pure, lift, wrap, map_err, ◌>>=◌, ◌>>◌,
}
use go_ecommerce_microservic.HttpErrors.Chain.{GoError}
use go_ecommerce_microservic.HttpErrors.CustomErrors.{
  new_application_error_wrap, new_application_error_wrap_with_code,
}
use go_ecommerce_microservic.Postgresgorm.{
  GormDb, GormDbContext, add_model, find_model_by_id, update_model, delete_data_model_by_id,
}

module _ (F : Type 0) where
  pub record Product : Type 0 where
    pub id : ℕ
    pub name : Text
    pub description : Text
    pub price : F
    pub created_at : ℕ
    pub updated_at : ℕ

  -- A row that is deleted softly has the time of its deletion.
  pub record ProductDataModel : Type 0 where
    pub id : ℕ
    pub name : Text
    pub description : Text
    pub price : F
    pub created_at : ℕ
    pub updated_at : ℕ
    pub deleted_at : Option ℕ

  pub record ProductDto : Type 0 where
    pub id : ℕ
    pub name : Text
    pub description : Text
    pub price : F
    pub created_at : ℕ
    pub updated_at : ℕ

  pub record CreateProduct : Type 0 where
    pub product_id : ℕ
    pub name : Text
    pub description : Text
    pub price : F
    pub created_at : ℕ

  pub record UpdateProduct : Type 0 where
    pub product_id : ℕ
    pub name : Text
    pub description : Text
    pub price : F
    pub updated_at : ℕ

  -- The integration events, with the id and the time of their message.
  pub data ProductEvent : Type 0 where
    product_created_v1 product_updated_v1 : ℕ → ℕ → ProductDto → ProductEvent
    product_deleted_v1 : ℕ → ℕ → Text → ProductEvent

module _ {F : Type 0} where
  -- The mappings of `ConfigureProductsMappings`, which copy the fields of the same name.
  abbrev pub product_to_data_model : Product F → ProductDataModel F
  product_to_data_model p = record {
    id = p.id;
    name = p.name;
    description = p.description;
    price = p.price;
    created_at = p.created_at;
    updated_at = p.updated_at;
    deleted_at = none;
  }

  abbrev pub data_model_to_product : ProductDataModel F → Product F
  data_model_to_product p = record {
    id = p.id;
    name = p.name;
    description = p.description;
    price = p.price;
    created_at = p.created_at;
    updated_at = p.updated_at;
  }

  abbrev pub product_to_dto : Product F → ProductDto F
  product_to_dto p = record {
    id = p.id;
    name = p.name;
    description = p.description;
    price = p.price;
    created_at = p.created_at;
    updated_at = p.updated_at;
  }

-- A method's name in Go's type system: one that is not exported counts with the package that declares it.
pub data Method : Type 0 where
  exported : Text → Method
  unexported : Text → Text → Method

abbrev pub same_method : Method → Method → Bool
same_method (exported name) (exported name') = text_eq name name'
same_method (unexported path name) (unexported path' name') =
    text_eq path path' && text_eq name name'
same_method _ _ = false

abbrev pub has_method : List Method → Method → Bool
has_method [] m = false
has_method (m' ∷ methods) m = same_method m' m || has_method methods m

-- `x.(I)`: the methods of the dynamic type have all those of the interface.
abbrev pub implements : List Method → List Method → Bool
implements methods [] = true
implements methods (m ∷ interface) = has_method methods m && implements methods interface

abbrev pub cqrs : Text
cqrs = text "internal/pkg/core/cqrs"

abbrev pub request_methods : List Method
request_methods = unexported cqrs (text "isRequest") ∷ []

abbrev pub command_methods : List Method
command_methods =
    unexported cqrs (text "isCommand")
    ∷ unexported cqrs (text "isRequest")
    ∷ exported (text "ShortTypeName")
    ∷ exported (text "FullTypeName")
    ∷ exported (text "Type")
    ∷ []

abbrev pub tx_request_methods : List Method
tx_request_methods = unexported cqrs (text "isTxRequest") ∷ request_methods

-- The methods of `*CreateProduct`: its own, in the package of the feature, and those of the command in it.
abbrev pub create_product_methods : List Method
create_product_methods =
    unexported (text "internal/products/features/creatingproduct/v1") (text "isTxRequest")
    ∷ exported (text "Validate")
    ∷ command_methods

-- `request.(cqrs.TxRequest)` in the pipeline of transactions
unfoldable pub is_tx_request : List Method → Bool
unfolding text_eq
is_tx_request methods = implements methods tx_request_methods

-- The context for products, of which `catalogs_context` is the one with the mappings registered.
abbrev pub CatalogsContext : Type 0 → Type 0 → Type 0
CatalogsContext W F = GormDbContext W (ProductDataModel F) (Product F)

abbrev pub catalogs_context :
    {W F : Type 0}
    → GormDb W (ProductDataModel F)
    → Option (GormDb W (ProductDataModel F))
    → (ℕ → Text)
    → CatalogsContext W F
catalogs_context db transaction show_id = record {
  db = db;
  transaction = transaction;
  show_id = show_id;
  data_model_name = text "product_data_model";
  model_name = text "product";
  to_data_model = λ p. ok (product_to_data_model p);
  to_model = λ p. ok (data_model_to_product p);
}

-- `ProductHandlerParams`: the context of the database, and the producer; the id and the time that the
-- message of this call gets, and `mapper.Map` to a DTO.
pub record ProductHandlerParams (W F : Type 0) : Type 0 where
  pub context : CatalogsContext W F
  pub publish_message : ProductEvent F → Action {0, 0, 0} W GoError Unit
  pub message_id : ℕ
  pub now : ℕ
  pub map_product_dto : Product F → Outcome GoError (ProductDto F)

module _ {W F : Type 0} (c : ProductHandlerParams W F) where
  abbrev pub publishing : Text → ProductEvent F → Action {0, 0, 0} W GoError Unit
  publishing message event =
      wrap (λ e. new_application_error_wrap (some e) message) (c.publish_message event)

  abbrev pub mapped_dto : Text → Product F → Action W GoError (ProductDto F)
  mapped_dto message product =
      lift (map_err (λ e. new_application_error_wrap (some e) message) (c.map_product_dto product))

  -- The id of the created product is the answer.
  unfoldable pub create_product : CreateProduct F → Action W GoError ℕ
  unfolding add_model
  create_product command =
      add_model c.context (record {
        id = command.product_id;
        name = command.name;
        description = command.description;
        price = command.price;
        created_at = command.created_at;
        updated_at = 0;
      })
      >>= λ result. mapped_dto (text "error in the mapping ProductDto") result >>= λ product_dto.
          publishing (text "error in publishing ProductCreated integration_events event")
            (product_created_v1 c.message_id c.now product_dto)
          >> pure command.product_id

  abbrev pub with_changes : UpdateProduct F → Product F → Product F
  with_changes command product = record product {
    name = command.name;
    price = command.price;
    description = command.description;
    updated_at = command.updated_at;
  }

  unfoldable pub update_product : UpdateProduct F → Action {0, 0, 0} W GoError Unit
  unfolding find_model_by_id update_model
  update_product command =
      wrap
        (λ e. new_application_error_wrap_with_code (some e) 404 (
          text "product with id `" ++ (c.context.show_id command.product_id ++ text "` not found")))
        (find_model_by_id c.context command.product_id)
      >>= λ product.
          wrap
            (λ e.
              new_application_error_wrap (some e)
                (text "error in updating product in the repository"))
            (update_model c.context (with_changes command product))
          >>= λ updated_product.
              mapped_dto (text "error in the mapping ProductDto") updated_product >>= λ product_dto.
              publishing (text "error in publishing 'ProductUpdated' message")
                (product_updated_v1 c.message_id c.now product_dto)

  unfoldable pub delete_product : ℕ → Action {0, 0, 0} W GoError Unit
  unfolding delete_data_model_by_id
  delete_product product_id =
      delete_data_model_by_id c.context product_id
      >> publishing (text "error in publishing 'ProductDeleted' message")
          (product_deleted_v1 c.message_id c.now (c.context.show_id product_id))

  unfoldable pub get_product_by_id : ℕ → Action W GoError (ProductDto F)
  unfolding find_model_by_id
  get_product_by_id product_id = find_model_by_id c.context product_id >>= λ product.
      mapped_dto (text "error in the mapping product") product
