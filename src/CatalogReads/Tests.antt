-- ===== src/CatalogReads/Tests.antt =====
-- A product with a cache in memory, with prices that are numbers, for the theorems on the reading side of
-- the catalog.
use go_ecommerce_microservic.Common.{
  ℕ, Text, text, text_eq, text_eq_refl, List, [], ◌∷◌, ◌≡◌, refl, Option, none, some, Outcome, ok,
  err, if◌then◌else◌,
}
use go_ecommerce_microservic.HttpErrors.Chain.{GoError, leaf}
use go_ecommerce_microservic.CatalogReads.{
  Product, CreateProduct, UpdateProduct, ProductRepository, RedisClient, create_product,
  update_product, get_product_by_id,
}
use go_ecommerce_microservic.CatalogReads.Caching.{
  IsCache, update_product-get_product_by_id, create_product-get_cached,
}

abbrev Hash : Type 0
Hash = List (Text × Text)

abbrev field_of : Hash → Text → Option Text
field_of [] key = none
field_of ((k, bytes) ∷ hash) key =
    let rest = field_of hash key in if text_eq k key then some bytes else rest

abbrev set_if_none : Option Text → Text → Text → Hash → Hash
set_if_none none key bytes hash = (key, bytes) ∷ hash
set_if_none (some old) key bytes hash = hash

-- A product is written as its price and the time of its update.
abbrev tea : ℕ → ℕ → Product ℕ
tea price updated_at = record {
  id = text "a";
  product_id = text "p";
  name = text "tea";
  description = text "green";
  price = price;
  created_at = 9;
  updated_at = updated_at;
}

abbrev read : Text → Outcome GoError (Product ℕ)
read (price ∷ updated_at ∷ rest) = ok (tea price updated_at)
read _ = err (leaf (text "unexpected end of JSON input"))

abbrev redis : RedisClient Hash ℕ
redis = record {
  hsetnx = λ key bytes hash. (ok tt, set_if_none (field_of hash key) key bytes hash);
  hget = λ key hash. (ok (field_of hash key), hash);
  hdel = λ key hash. (ok tt, []);
  del = λ hash. (ok tt, []);
  marshal = λ p. ok (p.price ∷ p.updated_at ∷ []);
  unmarshal = read;
}

abbrev mongo : ProductRepository Hash ℕ
mongo = record {
  create_in_mongo = λ p hash. (ok p, hash);
  update_in_mongo = λ p hash. (ok p, hash);
  get_product_by_id_in_mongo = λ id hash. (ok (some (tea 3 0)), hash);
  get_product_by_product_id = λ id hash. (ok (some (tea 3 0)), hash);
  delete_product_by_id = λ id hash. (ok tt, hash);
}

redis-IsCache : IsCache redis field_of
redis-IsCache = record {
  got = λ key hash. refl;
  kept = λ key bytes old hash h. (hash, rw h, h);
  added = λ key bytes hash h. ((key, bytes) ∷ hash, rw h, rw (text_eq_refl key));
}

abbrev change : UpdateProduct ℕ
change = record {
  product_id = text "p";
  name = text "tea";
  description = text "green";
  price = 5;
  updated_at = 8;
}

abbrev cached : Hash
cached = (text "a", 3 ∷ 0 ∷ []) ∷ []

-- The price is 5 now, and 3 is what a client gets.
update_product-get_product_by_id_example :
    let r = update_product mongo redis change cached in
    (r.0 ≡ ok tt) × ((get_product_by_id mongo redis (text "a") r.1).0 ≡ ok (tea 3 0))
unfolding text_eq
update_product-get_product_by_id_example =
    update_product-get_product_by_id mongo redis field_of redis-IsCache change (tea 3 0) (tea 5 8)
      (3 ∷ 0 ∷ []) (5 ∷ 8 ∷ []) cached cached cached refl refl refl refl refl

abbrev command : CreateProduct ℕ
command = record {
  id = text "a";
  product_id = text "p";
  name = text "tea";
  description = text "green";
  price = 4;
  created_at = 9;
}

create_product-get_cached_example :
    let r = create_product mongo redis command [] in
    (r.0 ≡ ok (text "a")) × ((get_product_by_id mongo redis (text "a") r.1).0 ≡ ok (tea 4 0))
create_product-get_cached_example =
    create_product-get_cached mongo redis field_of redis-IsCache command (4 ∷ 0 ∷ []) [] [] refl
      refl refl refl
