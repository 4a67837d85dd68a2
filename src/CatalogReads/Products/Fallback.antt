-- ===== src/CatalogReads/Products/Fallback.antt =====
-- The handler of get_product_by_id in internal/services/catalogreadservice/internal/products/features, over
-- mongo_product_repository.go.
use go_ecommerce_microservic.Common.{
  ℕ, true, Text, text, [], ◌∷◌, ◌≡◌, refl, ap, ◌∙◌, ◌++◌, Option, none, some, Outcome, ok, err,
}
use go_ecommerce_microservic.HttpErrors.Chain.{GoError, annotated}
use go_ecommerce_microservic.HttpErrors.CustomErrors.{
  is_not_found_error, new_not_found_error_wrap, new_application_error_wrap,
}
use go_ecommerce_microservic.Mongodb.{bson_string, fields, by_id, no_documents, find_error}
use go_ecommerce_microservic.GenericRepository.{entity_of}
use go_ecommerce_microservic.Mongodb.Repository.{
  MongoGenericRepository, get_by_id, cant_find, first_or_default,
}
use go_ecommerce_microservic.Mongodb.Stored.{IsCollection}
use go_ecommerce_microservic.CatalogReads
use go_ecommerce_microservic.CatalogReads.{Product, RedisClient, get_cached, or_from_mongo}
use go_ecommerce_microservic.CatalogReads.Products.{
  mongo_product_repository, get_product_by_id, get_product_by_product_id,
}

abbrev pub id_of_product : {F : Type 0} → Product F → Text
id_of_product product = product.id

module _ {W F : Type 0} (m : MongoGenericRepository W (Product F) (Product F))
    (as_is : (p : Product F) → entity_of m.models p ≡ ok p)
    (uuid_from_string : Text → Outcome GoError ℕ) (redis : RedisClient W F)
    (merged : Option (Product F) → Product F → Product F) (table : W → Text → Option (Product F))
    (documented : IsCollection m.collection id_of_product merged table) where
  abbrev missing_error : ℕ → Text → GoError
  missing_error n id =
      new_application_error_wrap
        (some (
          annotated (text "can't find the product with id " ++ (id ++ text " into the database."))
            (new_not_found_error_wrap (some (find_error no_documents)) (cant_find m n))))
        (text "error in getting product with id in the mongo repository")

  -- A product that is stored under another id than its product id is found by its product id in the
  -- repository, and yet a client that asks the handler for the product id is answered with a not-found
  -- error: the repository reports a missing id as an error, so the handler does not try the product id.
  -- The cache has no entry, a product is its own data model, the product id is the
  -- text of a uuid, and the collection behaves as documented.
  pub get_product_by_id-by_product_id :
      (product : Product F) (n : ℕ) (w : W)
      → uuid_from_string product.product_id ≡ ok n
      → m.show_id n ≡ product.product_id
      → table w product.product_id ≡ none
      → m.collection.find_one (fields ((text "productId", bson_string product.product_id) ∷ [])) w
        ≡ (ok product, w)
      → redis.hget product.product_id w ≡ (ok none, w)
      → (e : GoError) × (get_product_by_product_id m uuid_from_string product.product_id w
          ≡ (ok (some product), w))
        × (CatalogReads.get_product_by_id
              (mongo_product_repository m uuid_from_string)
              redis
              product.product_id
              w
            ≡ (err e, w))
        × (is_not_found_error e ≡ true)
  unfolding CatalogReads.get_product_by_id get_product_by_product_id get_product_by_id get_by_id
      first_or_default get_cached or_from_mongo is_not_found_error new_application_error_wrap
      new_not_found_error_wrap
  get_product_by_id-by_product_id product n w parsed shown absent indexed uncached =
      let gone : m.collection.find_one (by_id (bson_string (m.show_id n))) w
          ≡ (err no_documents, w) =
        documented.missing (m.show_id n) w (ap (table w) shown ∙ absent) in
      (
        missing_error n product.product_id,
        rw (get_product_by_product_id, first_or_default, indexed, as_is product),
        rw (
          CatalogReads.get_product_by_id, get_cached, uncached, or_from_mongo, get_product_by_id,
          parsed, get_by_id, gone,
        ),
        refl,
      )
