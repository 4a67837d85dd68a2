-- ===== src/Mongodb.antt =====
-- internal/pkg/mongodb (helpers.go): pages of a collection, and the page itself, `ListResult` of
-- internal/pkg/utils/pagination.go. The driver of MongoDB is a parameter: a collection over the state `W`,
-- whose documents are decoded into a data model `D`. The number of pages, which is computed in float64, is
-- a parameter too.
pub mod Repository
pub mod Stored
pub mod Refinement
pub mod Pages
pub mod Memory
mod Tests
use go_ecommerce_microservic.Common.{
  ℕ, Text, text, List, [], ◌∷◌, Outcome, ok, err, panic, bind, Action, pure, lift, wrap, ◌>>=◌,
  Option, none, some,
}
use go_ecommerce_microservic.HttpErrors.Chain.{GoError, leaf, annotated}
use go_ecommerce_microservic.HttpErrors.CustomErrors.{new_application_error_wrap}
use go_ecommerce_microservic.Pagination.{ListQuery, get_limit, get_offset}

pub data BsonValue : Type 0 where
  bson_string : Text → BsonValue
  bson_number : ℕ → BsonValue

-- A regular expression with its options, for a field.
pub record FieldRegex : Type 0 where
  pub name : Text
  pub pattern : Text
  pub options : Text

-- `bson.D{}`, the fields of a `bson.M`, and a `$or` of regular expressions
pub data Filter : Type 0 where
  everything : Filter
  fields : List (Text × BsonValue) → Filter
  any_of : List FieldRegex → Filter

-- The filter `bson.M{"_id": id}`
abbrev pub by_id : BsonValue → Filter
by_id id = fields ((text "_id", id) ∷ [])

-- What `Decode` of a single document fails with: `mongo.ErrNoDocuments`, or another error.
pub data FindError : Type 0 where
  no_documents : FindError
  failed : GoError → FindError

abbrev pub find_error : FindError → GoError
find_error no_documents = leaf (text "mongo: no documents in result")
find_error (failed e) = e

-- The documents of a cursor, each with what decoding it gives; a cursor may break off with an error.
pub data Cursor (D : Type 0) : Type 0 where
  end : Cursor D
  broken : GoError → Cursor D
  document : Outcome GoError D → Cursor D → Cursor D

-- `FindOneAndUpdate` sets the fields of the data model, inserts it where there is none, and gives the
-- document back as it is afterwards. `Find` takes the numbers of documents to skip and to give.
pub record Collection (W D : Type 0) : Type 0 where
  pub insert_one : D → Action {0, 0, 0} W GoError Unit
  pub find_one : Filter → Action W FindError D
  pub find_one_and_update : Filter → D → Action W FindError D
  pub find_one_and_delete : Filter → Action {0, 0, 0} W FindError Unit
  pub find : Filter → Option (ℕ × ℕ) → Action W GoError (Cursor D)
  pub count_documents : Filter → Action W GoError ℕ

-- `ListResult`
pub record ListResult (A : Type 0) : Type 0 where
  pub size : ℕ
  pub page : ℕ
  pub total_items : ℕ
  pub total_page : ℕ
  pub items : List A

module _ {A : Type 0} where
  abbrev pub new_list_result : (ℕ → ℕ → ℕ) → List A → ℕ → ℕ → ℕ → ListResult A
  new_list_result get_total_pages items size page total_items = record {
    size = size;
    page = page;
    total_items = total_items;
    total_page = get_total_pages total_items size;
    items = items;
  }

  -- `ListResultToListResultDto` of a result that is not nil, by the mapping of its items
  abbrev pub list_result_to_list_result_dto :
      {B : Type 0}
      → (List A → Outcome GoError (List B))
      → ListResult A
      → Outcome GoError (ListResult B)
  list_result_to_list_result_dto map_items result = bind (map_items result.items) λ items.
      ok (record {
        size = result.size;
        page = result.page;
        total_items = result.total_items;
        total_page = result.total_page;
        items = items;
      })

  abbrev pub and_rest : A → Outcome GoError (List A) → Outcome GoError (List A)
  and_rest a (ok rest) = ok (a ∷ rest)
  and_rest a (err e) = err e
  and_rest a panic = panic

  -- `cursor.All`
  abbrev pub all_documents : Cursor A → Outcome GoError (List A)
  all_documents end = ok []
  all_documents (broken e) = err e
  all_documents (document (ok a) cursor) = and_rest a (all_documents cursor)
  all_documents (document (err e) cursor) = err e
  all_documents (document panic cursor) = panic

module _ {W D : Type 0} (get_total_pages : ℕ → ℕ → ℕ) (collection : Collection W D) where
  unfoldable pub paginate : ListQuery → Filter → Action W GoError (ListResult D)
  paginate list_query filter =
      wrap (annotated (text "CountDocuments")) (collection.count_documents filter) >>= λ count.
      collection.find filter (some (get_offset list_query, get_limit list_query)) >>= λ cursor.
      lift (all_documents cursor) >>= λ items.
      pure (new_list_result get_total_pages items list_query.size list_query.page count)

-- A list that a handler gives on, with each error as an application error of its own text.
abbrev pub application_list :
    {W A B : Type 0}
    → (List A → Outcome GoError (List B))
    → Text
    → Text
    → Action W GoError (ListResult A)
    → Action W GoError (ListResult B)
application_list map_items fetching mapping list =
    wrap (λ e. new_application_error_wrap (some e) fetching) list >>= λ result.
    wrap (λ e. new_application_error_wrap (some e) mapping)
      (lift (list_result_to_list_result_dto map_items result))
