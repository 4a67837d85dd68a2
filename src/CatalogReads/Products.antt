-- ===== src/CatalogReads/Products.antt =====
-- internal/services/catalogreadservice/internal/products/data/repositories/mongo_product_repository.go: the
-- products on MongoDB, by the generic repository, and the handlers that give lists of them
-- (features/getting_products, features/searching_products). The parsing of a uuid and the mapping of lists
-- are parameters; logs and spans are left out.
pub mod Fallback
mod Tests
use go_ecommerce_microservic.Common.{
  ℕ, Text, text, ◌++◌, List, [], ◌∷◌, Option, none, some, Outcome, Action, pure, lift, wrap, ◌>>=◌,
  ◌>>◌,
}
use go_ecommerce_microservic.HttpErrors.Chain.{GoError, annotated}
use go_ecommerce_microservic.Pagination.{ListQuery}
use go_ecommerce_microservic.Mongodb.{bson_string, ListResult, application_list}
use go_ecommerce_microservic.Mongodb.Repository.{
  MongoGenericRepository, add, update, delete, get_by_id, get_all, search, first_or_default,
}
use go_ecommerce_microservic.CatalogReads.{Product, ProductRepository}

module _ {W F : Type 0} (m : MongoGenericRepository W (Product F) (Product F))
    (uuid_from_string : Text → Outcome GoError ℕ) where
  unfoldable pub get_all_products : ListQuery → Action W GoError (ListResult (Product F))
  unfolding get_all
  get_all_products list_query =
      wrap (annotated (text "error in the paginate")) (get_all m list_query)

  unfoldable pub search_products : Text → ListQuery → Action W GoError (ListResult (Product F))
  unfolding search
  search_products search_text list_query =
      wrap (annotated (text "error in the paginate")) (search m search_text list_query)

  unfoldable pub get_product_by_id : Text → Action W GoError (Option (Product F))
  unfolding get_by_id
  get_product_by_id uuid = lift (uuid_from_string uuid) >>= λ id.
      wrap
        (annotated (text "can't find the product with id " ++ (uuid ++ text " into the database.")))
        (get_by_id m id)
      >>= λ product. pure (some product)

  unfoldable pub get_product_by_product_id : Text → Action W GoError (Option (Product F))
  unfolding first_or_default
  get_product_by_product_id uuid =
      wrap
        (annotated
          (text "can't find the product with productId " ++ (uuid ++ text " into the database.")))
        (first_or_default m ((text "productId", bson_string uuid) ∷ []))

  unfoldable pub create_product : Product F → Action W GoError (Product F)
  unfolding add
  create_product product =
      wrap (annotated (text "error in the inserting product into the database.")) (add m product)

  unfoldable pub update_product : Product F → Action W GoError (Product F)
  unfolding update
  update_product product =
      wrap
        (annotated (
          text "error in updating product with id "
          ++ (product.product_id ++ text " into the database.")))
        (update m product)

  unfoldable pub delete_product_by_id : Text → Action {0, 0, 0} W GoError Unit
  unfolding delete
  delete_product_by_id uuid = lift (uuid_from_string uuid) >>= λ id.
      wrap
        (annotated
          (text "error in deleting product with id " ++ (uuid ++ text " from the database.")))
        (delete m id)

  -- The repository as the handlers see it.
  abbrev pub mongo_product_repository : ProductRepository W F
  mongo_product_repository = record {
    create_in_mongo = create_product;
    update_in_mongo = update_product;
    get_product_by_id_in_mongo = get_product_by_id;
    get_product_by_product_id = get_product_by_product_id;
    delete_product_by_id = delete_product_by_id;
  }

  module _ {Dto : Type 0} (map_products : List (Product F) → Outcome GoError (List Dto)) where
    -- `Handle` of getting_products
    unfoldable pub handle_get_products : ListQuery → Action W GoError (ListResult Dto)
    unfolding get_all_products
    handle_get_products list_query =
        application_list map_products (text "error in getting products in the repository")
          (text "error in the mapping ListResultToListResultDto") (get_all_products list_query)

    -- `Handle` of searching_products
    unfoldable pub handle_search_products : Text → ListQuery → Action W GoError (ListResult Dto)
    unfolding search_products
    handle_search_products search_text list_query =
        application_list map_products (text "error in searching products in the repository")
          (text "error in the mapping ListResultToListResultDto")
          (search_products search_text list_query)
