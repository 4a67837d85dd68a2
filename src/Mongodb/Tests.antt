-- ===== src/Mongodb/Tests.antt =====
-- A collection of texts, for the theorems on the generic repository of MongoDB.
use go_ecommerce_microservic.Common.{
  ℕ, true, Text, text, text_eq, List, [], ◌∷◌, ◌≡◌, refl, Option, none, some, ok, err, length, take,
  drop,
}
use go_ecommerce_microservic.HttpErrors.Chain.{leaf}
use go_ecommerce_microservic.Pagination.{new_list_query}
use go_ecommerce_microservic.GenericRepository.{same}
use go_ecommerce_microservic.Mongodb.{bson_string, end, broken, Collection}
use go_ecommerce_microservic.Mongodb.Repository.{MongoGenericRepository, get_by_filter, get_all}
use go_ecommerce_microservic.Mongodb.Stored.{
  Answer, Table, Operation, to_add, to_update, to_delete, to_get, done, refused, not_found, gave,
}
use go_ecommerce_microservic.Mongodb.Refinement.{perform_all, IsMapped, perform_all-on_table}
use go_ecommerce_microservic.Mongodb.Pages.{documents, get_by_filter-broken}
use go_ecommerce_microservic.Mongodb.Memory.{
  Entries, entry, collection_in_memory, collection_in_memory-IsCollection,
}

-- A text is its own id.
abbrev itself : Text → Text
itself t = t

abbrev no_other : Text → Text → Entries Text → Option Text
no_other name k entries = none

abbrev repository_on : {W : Type 0} → Collection W Text → MongoGenericRepository W Text Text
repository_on collection = record {
  collection = collection;
  models = same;
  show_id = λ id. id ∷ [];
  get_field_value_by_name = λ t name. some (bson_string t);
  all_fields = (text "Name", true) ∷ [];
  to_lower_camel = λ name. name;
  get_total_pages = λ total size. total;
}

abbrev texts : MongoGenericRepository (Entries Text) Text Text
texts = repository_on (collection_in_memory itself no_other)

texts-IsMapped : IsMapped texts itself itself itself
texts-IsMapped = record {
  stored = λ t. refl;
  read = λ t. refl;
  after = λ t d. (t, refl);
  identified = λ d. refl;
}

abbrev operations : List (Operation Text)
operations =
    to_get 7
    ∷ to_add (7 ∷ [])
    ∷ to_add (7 ∷ [])
    ∷ to_get 7
    ∷ to_update (8 ∷ [])
    ∷ to_get 8
    ∷ to_delete 7
    ∷ to_delete 7
    ∷ to_get 7
    ∷ []

perform_all-on_table_example :
    ◌≡◌ {A = List (Answer Text) × Table Text}
      ((perform_all texts operations []).0, entry (perform_all texts operations []).1)
      (
        not_found
            ∷ done
            ∷ refused
            ∷ gave (7 ∷ [])
            ∷ done
            ∷ gave (8 ∷ [])
            ∷ done
            ∷ refused
            ∷ not_found
            ∷ [],
        entry ((7 ∷ [], none) ∷ (8 ∷ [], some (8 ∷ [])) ∷ (7 ∷ [], some (7 ∷ [])) ∷ []),
      )
unfolding text_eq
perform_all-on_table_example =
    perform_all-on_table texts itself itself itself (λ old d. d) entry
      (collection_in_memory-IsCollection itself no_other) texts-IsMapped operations []

abbrev window : Option (ℕ × ℕ) → List Text → List Text
window none docs = docs
window (some (skip, limit)) docs = take limit (drop skip docs)

-- The state is the list of all documents.
abbrev listed : Collection (List Text) Text
listed = record {
  insert_one = λ d docs. (ok tt, d ∷ docs);
  find_one = λ filter docs. (ok [], docs);
  find_one_and_update = λ filter d docs. (ok d, docs);
  find_one_and_delete = λ filter docs. (ok tt, docs);
  find = λ filter w docs. (ok (documents (window w docs) end), docs);
  count_documents = λ filter docs. (ok (length docs), docs);
}

abbrev docs : List Text
docs = text "a" ∷ text "b" ∷ text "c" ∷ text "d" ∷ text "e" ∷ []

-- The cursor breaks off after two documents.
abbrev breaking : Collection (List Text) Text
breaking = record listed {
  find = λ filter w docs. (ok (documents (take 2 docs) (broken (leaf (text "cursor")))), docs);
}

get_by_filter-broken_example :
    (get_by_filter (repository_on breaking) [] docs ≡ (ok (text "a" ∷ text "b" ∷ []), docs))
    × (get_all (repository_on breaking) (new_list_query 3 1) docs
        ≡ (err (leaf (text "cursor")), docs))
get_by_filter-broken_example =
    get_by_filter-broken (repository_on breaking) [] (new_list_query 3 1) (text "a" ∷ text "b" ∷ [])
      (text "a" ∷ text "b" ∷ []) 5 (leaf (text "cursor")) docs refl refl refl refl
