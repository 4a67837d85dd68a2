-- ===== src/Mongodb/Pages.antt =====
-- The pages and the cursors of internal/pkg/mongodb/repository/mongo_generic_repository.go, with `Paginate` of
-- internal/pkg/mongodb/helpers.go.
use go_ecommerce_microservic.Common.{ℕ, Text, List, [], ◌∷◌, ◌≡◌, refl, none, some, ok, err}
use go_ecommerce_microservic.HttpErrors.Chain.{GoError}
use go_ecommerce_microservic.Pagination.{ListQuery, get_offset}
use go_ecommerce_microservic.Mongodb.{
  BsonValue, everything, fields, Cursor, end, broken, document, all_documents, paginate,
}
use go_ecommerce_microservic.GenericRepository.{entities_of}
use go_ecommerce_microservic.Mongodb.Repository.{
  MongoGenericRepository, get_all, get_by_filter, decode_each,
}

module _ {D : Type 0} where
  -- A cursor over documents that can all be decoded, which ends as `rest` does.
  abbrev pub documents : List D → Cursor D → Cursor D
  documents [] rest = rest
  documents (d ∷ ds) rest = document (ok d) (documents ds rest)

  all_documents-documents : (ds : List D) → all_documents (documents ds end) ≡ ok ds
  all_documents-documents [] = refl
  all_documents-documents (d ∷ ds) = rw (all_documents-documents ds)

  all_documents-broken :
      (ds : List D) (e : GoError) → all_documents (documents ds (broken e)) ≡ err e
  all_documents-broken [] e = refl
  all_documents-broken (d ∷ ds) e = rw (all_documents-broken ds e)

  decode_each-broken : (ds : List D) (e : GoError) → decode_each (documents ds (broken e)) ≡ ok ds
  decode_each-broken [] e = refl
  decode_each-broken (d ∷ ds) e = rw (decode_each-broken ds e)

module _ {W D E : Type 0} (m : MongoGenericRepository W D E) where
  -- When the cursor of a query breaks off, the filtered documents up to there are answered as if they were
  -- all, without an error, while a page of the collection is answered with the error. The documents up to
  -- there can be decoded and mapped.
  pub get_by_filter-broken :
      (filters : List (Text × BsonValue)) (list_query : ListQuery) (ds : List D) (es : List E)
      (total : ℕ) (e : GoError) (w : W)
      → m.collection.find (fields filters) none w ≡ (ok (documents ds (broken e)), w)
      → entities_of m.models ds ≡ ok es
      → m.collection.count_documents everything w ≡ (ok total, w)
      → m.collection.find everything (some (get_offset list_query, list_query.size)) w
        ≡ (ok (documents ds (broken e)), w)
      → (get_by_filter m filters w ≡ (ok es, w)) × (get_all m list_query w ≡ (err e, w))
  unfolding get_by_filter get_all
  get_by_filter-broken filters list_query ds es total e w h mapped counted paged = (
    rw (get_by_filter, h, decode_each-broken ds e, mapped),
    rw (get_all, paginate, counted, paged, all_documents-broken ds e),
  )
