-- ===== src/Catalogs/Repository.antt =====
-- internal/services/catalogwriteservice/internal/products/data/repositories/pg_product_repository.go: the
-- products by the generic repository of gorm, and the handlers that give lists of them
-- (features/gettingproducts, features/searchingproduct). The mapping of lists is a parameter; logs and spans
-- are left out.
use go_ecommerce_microservic.Common.{ℕ, Text, text, ◌++◌, List, Outcome, Action, wrap}
use go_ecommerce_microservic.HttpErrors.Chain.{GoError, annotated}
use go_ecommerce_microservic.Pagination.{ListQuery}
use go_ecommerce_microservic.Mongodb.{ListResult, application_list}
use go_ecommerce_microservic.Postgresgorm.Queries.{no_conditions, paginate, search_query}
use go_ecommerce_microservic.Postgresgorm.Repository.{
  GormGenericRepository, add, update, delete, get_by_id, get_all, search,
}
use go_ecommerce_microservic.Catalogs.{Product, ProductDataModel}

module _ {W F : Type 0} (r : GormGenericRepository W (Product F) (Product F)) where
  unfoldable pub get_all_products : ListQuery → Action W GoError (ListResult (Product F))
  unfolding get_all
  get_all_products list_query =
      wrap (annotated (text "error in the paginate")) (get_all r list_query)

  unfoldable pub search_products : Text → ListQuery → Action W GoError (ListResult (Product F))
  unfolding search
  search_products search_text list_query =
      wrap (annotated (text "error in the paginate")) (search r search_text list_query)

  unfoldable pub get_stored_product : ℕ → Action W GoError (Product F)
  unfolding get_by_id
  get_stored_product id =
      wrap
        (annotated
          (text "can't find the product with id " ++ (r.show_id id ++ text " into the database.")))
        (get_by_id r id)

  unfoldable pub store_product : Product F → Action W GoError (Product F)
  unfolding add
  store_product product =
      wrap (annotated (text "error in the inserting product into the database.")) (add r product)

  unfoldable pub update_stored_product : Product F → Action W GoError (Product F)
  unfolding update
  update_stored_product product =
      wrap
        (annotated (
          text "error in updating product with id "
          ++ (r.show_id product.id ++ text " into the database.")))
        (update r product)

  unfoldable pub delete_product_by_id : ℕ → Action {0, 0, 0} W GoError Unit
  unfolding delete
  delete_product_by_id id =
      wrap
        (annotated (
          text "error in the deleting product with id "
          ++ (r.show_id id ++ text " into the database.")))
        (delete r id)

-- The table of the data models, read into products.
module _ {W F Dto : Type 0} (r : GormGenericRepository W (ProductDataModel F) (Product F))
    (map_products : List (Product F) → Outcome GoError (List Dto)) where
  -- `Handle` of gettingproducts
  unfoldable pub handle_get_products : ListQuery → Action W GoError (ListResult Dto)
  unfolding paginate
  handle_get_products list_query =
      application_list map_products (text "error in the fetching products")
        (text "error in the mapping")
        (paginate r.get_total_pages r.db.find_entities list_query no_conditions)

  -- `Handle` of searchingproduct
  unfoldable pub handle_search_products : Text → ListQuery → Action W GoError (ListResult Dto)
  unfolding paginate search_query
  handle_search_products search_text list_query =
      application_list map_products (text "error in searching products in the repository")
        (text "error in the mapping ListResultToListResultDto")
        (paginate r.get_total_pages r.db.find_entities list_query
          (search_query r.to_snake r.to_lower search_text r.all_fields no_conditions))
