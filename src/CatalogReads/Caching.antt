-- ===== src/CatalogReads/Caching.antt =====
-- What the cache of internal/services/catalogreadservice/internal/products gives back: `PutProduct` of
-- redis_product_repository.go sets a field only where there is none.
use go_ecommerce_microservic.Common.{Text, ◌≡◌, refl, ap, Option, none, some, ok}
use go_ecommerce_microservic.CatalogReads.{
  Product, CreateProduct, UpdateProduct, ProductRepository, RedisClient, put_product, get_cached,
  create_product, update_product, update_found, store_changed, with_changes, or_from_mongo,
  get_product_by_id,
}

-- The documented behaviour of redis: `HSETNX` and `HGET` on the fields of the hash.
pub record IsCache {W F : Type 0} (redis : RedisClient W F) (cache : W → Text → Option Text)
    : Type 0 where
  pub got : (key : Text) (w : W) → redis.hget key w ≡ (ok (cache w key), w)
  pub kept :
      (key bytes old : Text) (w : W)
      → cache w key ≡ some old
      → (w' : W) × (redis.hsetnx key bytes w ≡ (ok tt, w')) × (cache w' key ≡ some old)
  pub added :
      (key bytes : Text) (w : W)
      → cache w key ≡ none
      → (w' : W) × (redis.hsetnx key bytes w ≡ (ok tt, w')) × (cache w' key ≡ some bytes)

abbrev pub new_product : {F : Type 0} → CreateProduct F → Product F
new_product command = record {
  id = command.id;
  product_id = command.product_id;
  name = command.name;
  description = command.description;
  price = command.price;
  created_at = command.created_at;
  updated_at = 0;
}

module _ {W F : Type 0} (mongo : ProductRepository W F) (redis : RedisClient W F)
    (cache : W → Text → Option Text) (documented : IsCache redis cache) where
  get_product_by_id-cached :
      (id bytes : Text) (product : Product F) (w : W)
      → cache w id ≡ some bytes
      → redis.unmarshal bytes ≡ ok product
      → get_product_by_id mongo redis id w ≡ (ok product, w)
  unfolding get_product_by_id get_cached or_from_mongo
  get_product_by_id-cached id bytes product w h read =
      rw (get_product_by_id, get_cached, documented.got id w, h, read)

  put_product-kept :
      (key bytes old : Text) (product : Product F) (w : W)
      → cache w key ≡ some old
      → redis.marshal product ≡ ok bytes
      → (w' : W) × (put_product redis key product w ≡ (ok tt, w')) × (cache w' key ≡ some old)
  unfolding put_product
  put_product-kept key bytes old product w h written =
      let r = documented.kept key bytes old w h in (r.0, rw (put_product, written, r.1), r.2)

  put_product-added :
      (key bytes : Text) (product : Product F) (w : W)
      → cache w key ≡ none
      → redis.marshal product ≡ ok bytes
      → (w' : W) × (put_product redis key product w ≡ (ok tt, w')) × (cache w' key ≡ some bytes)
  unfolding put_product
  put_product-added key bytes product w h written =
      let r = documented.added key bytes w h in (r.0, rw (put_product, written, r.1), r.2)

  -- An update of a product that is in the cache succeeds, and yet a client that asks for the product
  -- afterwards gets it as it was before: the old bytes stay in the cache. The database finds and
  -- updates the product, redis behaves as documented, and the JSON of both products is written and
  -- that of the old one read back.
  pub update_product-get_product_by_id :
      (command : UpdateProduct F) (old updated : Product F) (bytes new_bytes : Text) (w w1 w2 : W)
      → mongo.get_product_by_product_id command.product_id w ≡ (ok (some old), w1)
      → mongo.update_in_mongo (with_changes mongo redis command old) w1 ≡ (ok updated, w2)
      → cache w2 old.id ≡ some bytes
      → redis.unmarshal bytes ≡ ok old
      → redis.marshal (with_changes mongo redis command old) ≡ ok new_bytes
      → let r = update_product mongo redis command w in
        (r.0 ≡ ok tt) × ((get_product_by_id mongo redis old.id r.1).0 ≡ ok old)
  unfolding update_product update_found store_changed
  update_product-get_product_by_id command old updated bytes new_bytes w w1 w2 found changed cached
        read written =
      let put =
        put_product-kept old.id new_bytes bytes (with_changes mongo redis command old) w2 cached
          written in
      rw (update_product, found, update_found, store_changed, changed, put.1)
        (refl, ap (λ r. r.0) (get_product_by_id-cached old.id bytes old put.0 put.2 read))

  -- A product that was created is what a client gets for its id: when the database gives the product
  -- back as it is and the cache has no entry for its id, redis behaves as documented and the JSON of
  -- the product is read back as it was written.
  pub create_product-get_cached :
      (command : CreateProduct F) (bytes : Text) (w w1 : W)
      → mongo.create_in_mongo (new_product command) w ≡ (ok (new_product command), w1)
      → cache w1 command.id ≡ none
      → redis.marshal (new_product command) ≡ ok bytes
      → redis.unmarshal bytes ≡ ok (new_product command)
      → let r = create_product mongo redis command w in
        (r.0 ≡ ok command.id)
        × ((get_product_by_id mongo redis command.id r.1).0 ≡ ok (new_product command))
  unfolding create_product
  create_product-get_cached command bytes w w1 created fresh written read =
      let put = put_product-added command.id bytes (new_product command) w1 fresh written in
      rw (create_product, created, put.1)
        (
          refl,
          ap (λ r. r.0)
              (get_product_by_id-cached command.id bytes (new_product command) put.0 put.2 read),
        )
