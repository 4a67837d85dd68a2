-- ===== src/CatalogReads.antt =====
-- internal/services/catalogreadservice/internal/products: the products to read, in a database with a cache in
-- front of it. `W` is the state of both; the repository on MongoDB is its interface, and the calls of
-- redis and the JSON of a product are parameters. float64 is a type `F`; ids are texts, as `String()` gives
-- them. Lists, searches, logs and spans are left out.
pub mod Caching
pub mod Products
pub mod Consumers
mod Tests
use go_ecommerce_microservic.Common.{
  ℕ, Text, text, ◌++◌, Option, none, some, Outcome, ok, err, panic, Action, pure, lift, wrap,
  map_err, ◌>>=◌, ◌>>◌,
}
use go_ecommerce_microservic.HttpErrors.Chain.{GoError, annotated}
use go_ecommerce_microservic.HttpErrors.CustomErrors.{
  new_application_error_wrap, new_not_found_error_wrap,
}

module _ (F : Type 0) where
  pub record Product : Type 0 where
    pub id : Text
    pub product_id : Text
    pub name : Text
    pub description : Text
    pub price : F
    pub created_at : ℕ
    pub updated_at : ℕ

  pub record CreateProduct : Type 0 where
    pub id : Text
    pub product_id : Text
    pub name : Text
    pub description : Text
    pub price : F
    pub created_at : ℕ

  pub record UpdateProduct : Type 0 where
    pub product_id : Text
    pub name : Text
    pub description : Text
    pub price : F
    pub updated_at : ℕ

-- `data.ProductRepository`, on MongoDB; a missing product is nil.
pub record ProductRepository (W F : Type 0) : Type 0 where
  pub create_in_mongo : Product F → Action W GoError (Product F)
  pub update_in_mongo : Product F → Action W GoError (Product F)
  pub get_product_by_id_in_mongo : Text → Action W GoError (Option (Product F))
  pub get_product_by_product_id : Text → Action W GoError (Option (Product F))
  pub delete_product_by_id : Text → Action {0, 0, 0} W GoError Unit

-- The commands on the hash of products in redis, and the JSON of a product. `HGet` of a field that is not
-- there gives `redis.Nil`, which is no text here.
pub record RedisClient (W F : Type 0) : Type 0 where
  pub hsetnx : Text → Text → Action {0, 0, 0} W GoError Unit
  pub hget : Text → Action W GoError (Option Text)
  pub hdel : Text → Action {0, 0, 0} W GoError Unit
  pub del : Action {0, 0, 0} W GoError Unit
  pub marshal : Product F → Outcome GoError Text
  pub unmarshal : Text → Outcome GoError (Product F)

module _ {A : Type 0} where
  abbrev pub some_ok : Outcome GoError A → Outcome GoError (Option A)
  some_ok (ok a) = ok (some a)
  some_ok (err e) = err e
  some_ok panic = panic

module _ {W F : Type 0} (redis : RedisClient W F) where
  unfoldable pub put_product : Text → Product F → Action {0, 0, 0} W GoError Unit
  put_product key product =
      lift (map_err (annotated (text "error marshalling product")) (redis.marshal product))
      >>= λ product_bytes.
          wrap (annotated (text "error in updating product with key " ++ key))
            (redis.hsetnx key product_bytes)

  abbrev pub unmarshaled : Option Text → Outcome GoError (Option (Product F))
  unmarshaled none = ok none
  unmarshaled (some product_bytes) = some_ok (redis.unmarshal product_bytes)

  unfoldable pub get_cached : Text → Action W GoError (Option (Product F))
  get_cached key =
      wrap (annotated (text "error in getting product with Key " ++ (key ++ text " from database")))
        (redis.hget key)
      >>= λ product_bytes. lift (unmarshaled product_bytes)

  unfoldable pub delete_cached : Text → Action {0, 0, 0} W GoError Unit
  delete_cached key =
      wrap (annotated (text "error in deleting product with key " ++ key)) (redis.hdel key)

  unfoldable pub delete_all_products : Action {0, 0, 0} W GoError Unit
  delete_all_products = wrap (annotated (text "error in deleting all products")) redis.del

-- A product and its DTO have the same fields, and the mapping between them is registered: it is left out.
module _ {W F : Type 0} (mongo : ProductRepository W F) (redis : RedisClient W F) where
  abbrev pub application : {A : Type 0} → Text → Action W GoError A → Action W GoError A
  application message m = wrap (λ e. new_application_error_wrap (some e) message) m

  -- The id of the created product is the answer.
  unfoldable pub create_product : CreateProduct F → Action W GoError Text
  unfolding put_product
  create_product command =
      application (text "error in creating product in the mongo repository") (
        mongo.create_in_mongo (record {
          id = command.id;
          product_id = command.product_id;
          name = command.name;
          description = command.description;
          price = command.price;
          created_at = command.created_at;
          updated_at = 0;
        }))
      >>= λ created_product.
          application (text "error in creating product in the redis repository")
            (put_product redis created_product.id created_product)
          >> pure created_product.id

  abbrev pub fetched : Text → Action W GoError (Option (Product F))
  fetched product_id =
      application
        (text "error in fetching product with productId "
          ++ (product_id ++ text " in the mongo repository"))
        (mongo.get_product_by_product_id product_id)

  -- The error that is wrapped is nil here.
  abbrev pub missing : Text → Action {0, 0, 0} W GoError Unit
  missing product_id = lift (
      err (
        new_not_found_error_wrap none
          (text "product with productId " ++ (product_id ++ text " not found"))))

  unfoldable pub delete_found : Text → Option (Product F) → Action {0, 0, 0} W GoError Unit
  unfolding delete_cached
  delete_found product_id none = missing product_id
  delete_found product_id (some product) =
      application (text "error in deleting product in the mongo repository")
        (mongo.delete_product_by_id product.id)
      >> application (text "error in deleting product in the redis repository")
          (delete_cached redis product.id)

  unfoldable pub delete_product : Text → Action {0, 0, 0} W GoError Unit
  unfolding delete_found
  delete_product product_id = fetched product_id >>= delete_found product_id

  abbrev pub with_changes : UpdateProduct F → Product F → Product F
  with_changes command product = record product {
    price = command.price;
    name = command.name;
    description = command.description;
    updated_at = command.updated_at;
  }

  unfoldable pub store_changed : Product F → Action {0, 0, 0} W GoError Unit
  unfolding put_product
  store_changed product =
      application (text "error in updating product in the mongo repository")
        (mongo.update_in_mongo product)
      >>= λ _.
          application (text "error in updating product in the redis repository")
            (put_product redis product.id product)

  unfoldable pub update_found :
      UpdateProduct F → Option (Product F) → Action {0, 0, 0} W GoError Unit
  unfolding store_changed
  update_found command none = missing command.product_id
  update_found command (some product) = store_changed (with_changes command product)

  unfoldable pub update_product : UpdateProduct F → Action {0, 0, 0} W GoError Unit
  unfolding update_found
  update_product command = fetched command.product_id >>= update_found command

  -- A product that is nil still is dereferenced.
  unfoldable pub cached_first : Option (Product F) → Action W GoError (Product F)
  unfolding put_product
  cached_first none = lift panic
  cached_first (some product) = put_product redis product.id product >> pure product

  abbrev pub or_by_product_id : Text → Option (Product F) → Action W GoError (Option (Product F))
  or_by_product_id id none = mongo.get_product_by_product_id id
  or_by_product_id id (some product) = pure (some product)

  unfoldable pub or_from_mongo : Text → Option (Product F) → Action W GoError (Product F)
  unfolding cached_first
  or_from_mongo id (some product) = pure product
  or_from_mongo id none =
      application (text "error in getting product with id in the mongo repository")
        (mongo.get_product_by_id_in_mongo id)
      >>= or_by_product_id id
      >>= cached_first

  -- The id, which is printed as its bytes, is left out of the texts of the errors.
  unfoldable pub get_product_by_id : Text → Action W GoError (Product F)
  unfolding get_cached or_from_mongo
  get_product_by_id id =
      application (text "error in getting product with id in the redis repository")
        (get_cached redis id)
      >>= or_from_mongo id
