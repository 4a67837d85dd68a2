-- ===== src/CatalogReads/Products/Tests.antt =====
-- A product in memory that is stored under another id than its product id.
use go_ecommerce_microservic.Common.{
  ℕ, true, Text, text, text_eq, [], ◌∷◌, ◌≡◌, refl, Option, none, some, Outcome, ok, err,
}
use go_ecommerce_microservic.HttpErrors.Chain.{GoError, leaf}
use go_ecommerce_microservic.HttpErrors.CustomErrors.{is_not_found_error}
use go_ecommerce_microservic.GenericRepository.{same}
use go_ecommerce_microservic.Mongodb.{bson_string}
use go_ecommerce_microservic.Mongodb.Repository.{MongoGenericRepository}
use go_ecommerce_microservic.Mongodb.Memory.{
  Entries, entry, collection_in_memory, collection_in_memory-IsCollection,
}
use go_ecommerce_microservic.CatalogReads
use go_ecommerce_microservic.CatalogReads.{Product, RedisClient}
use go_ecommerce_microservic.CatalogReads.Products.{
  mongo_product_repository, get_product_by_product_id,
}
use go_ecommerce_microservic.CatalogReads.Products.Fallback.{
  id_of_product, get_product_by_id-by_product_id,
}

abbrev tea : Product ℕ
tea = record {
  id = 1 ∷ [];
  product_id = 2 ∷ [];
  name = text "tea";
  description = text "green";
  price = 3;
  created_at = 9;
  updated_at = 0;
}

-- The only product of the tests is the answer of a search.
abbrev the_first : Text → Text → Entries (Product ℕ) → Option (Product ℕ)
the_first name k [] = none
the_first name k ((j, d) ∷ entries) = d

abbrev products : MongoGenericRepository (Entries (Product ℕ)) (Product ℕ) (Product ℕ)
products = record {
  collection = collection_in_memory id_of_product the_first;
  models = same;
  show_id = λ id. id ∷ [];
  get_field_value_by_name = λ p name. some (bson_string p.id);
  all_fields = [];
  to_lower_camel = λ name. name;
  get_total_pages = λ total size. 0;
}

abbrev no_cache : RedisClient (Entries (Product ℕ)) ℕ
no_cache = record {
  hsetnx = λ key bytes w. (ok tt, w);
  hget = λ key w. (ok none, w);
  hdel = λ key w. (ok tt, w);
  del = λ w. (ok tt, w);
  marshal = λ p. ok [];
  unmarshal = λ bytes. ok tea;
}

abbrev parsed : Text → Outcome GoError ℕ
parsed (id ∷ []) = ok id
parsed _ = err (leaf (text "uuid: incorrect UUID length"))

get_product_by_id-by_product_id_example :
    (e : GoError) × (get_product_by_product_id products parsed (2 ∷ []) ((1 ∷ [], some tea) ∷ [])
      ≡ (ok (some tea), (1 ∷ [], some tea) ∷ []))
    × (CatalogReads.get_product_by_id
          (mongo_product_repository products parsed)
          no_cache
          (2 ∷ [])
          ((1 ∷ [], some tea) ∷ [])
        ≡ (err e, (1 ∷ [], some tea) ∷ []))
    × (is_not_found_error e ≡ true)
unfolding text_eq
get_product_by_id-by_product_id_example =
    get_product_by_id-by_product_id products (λ p. refl) parsed no_cache (λ old d. d) entry
      (collection_in_memory-IsCollection id_of_product the_first) tea 2 ((1 ∷ [], some tea) ∷ [])
      refl refl refl refl refl
