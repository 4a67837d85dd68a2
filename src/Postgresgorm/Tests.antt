-- ===== src/Postgresgorm/Tests.antt =====
-- A table in memory and a search with filters, for the theorems on the generic repository of gorm.
use go_ecommerce_microservic.Common.{
  ℕ, ◌+◌, Action, true, false, Text, text, [], ◌∷◌, ◌≡◌, refl, Option, none, some, Outcome, ok, err,
  All, ◌==◌, ==-refl, if◌then◌else◌,
}
use go_ecommerce_microservic.HttpErrors.Chain.{GoError, leaf}
use go_ecommerce_microservic.HttpErrors.CustomErrors.{is_not_found_error}
use go_ecommerce_microservic.GenericRepository.{same}
use go_ecommerce_microservic.Pagination.{ListQuery, FilterModel}
use go_ecommerce_microservic.Postgresgorm.{
  GormDb, Transactions, mediator_transaction_pipeline, run_in_tx,
}
use go_ecommerce_microservic.Postgresgorm.Transacting.{
  forgotten, mediator_transaction_pipeline-run_in_tx,
}
use go_ecommerce_microservic.Postgresgorm.Queries.{no_conditions, filter_paginate, search_query}
use go_ecommerce_microservic.Postgresgorm.Queries.Placeholders.{IsFilled, filter_paginate-IsFilled}
use go_ecommerce_microservic.Postgresgorm.Repository.{
  FirstError, record_not_found, GormTable, GormGenericRepository, add, delete, get_by_id,
}
use go_ecommerce_microservic.Postgresgorm.Repository.Deleting.{
  missing_entity, IsGormTable, add-delete-get_by_id,
}

abbrev compared : Text → FilterModel
compared comparison = record {
  field_name = text "name";
  value = text "tea,coffee";
  comparison = comparison;
}

abbrev list_query : ListQuery
list_query = record {
  size = 10;
  page = 2;
  order_by = text "name";
  filters = compared (text "in") ∷ compared (text "contains") ∷ compared (text "near") ∷ [];
}

abbrev snake : Text → Text
snake name = text "name"

filter_paginate-IsFilled_example :
    All IsFilled
      (filter_paginate list_query (
        search_query snake
          (λ t. t)
          (text "green")
          ((text "Name", true) ∷ (text "Price", false) ∷ [])
          no_conditions)).conditions
filter_paginate-IsFilled_example =
    filter_paginate-IsFilled list_query snake (λ t. t) (text "green")
      ((text "Name", true) ∷ (text "Price", false) ∷ []) no_conditions (refl, (refl, (refl, tt)))
      (λ name. refl) tt

-- A row is its id; the state is the rows by their ids.
abbrev Rows : Type 0
Rows = ℕ → Option ℕ

abbrev with_row : ℕ → Option ℕ → Rows → Rows
with_row id row rows j = if id == j then row else rows j

abbrev one_of : Option ℕ → Outcome FirstError ℕ
one_of none = err record_not_found
one_of (some row) = ok row

abbrev table : GormTable Rows ℕ ℕ
table = record {
  create = λ d rows. (ok d, with_row d (some d) rows);
  save = λ d rows. (ok d, with_row d (some d) rows);
  first = λ id rows. (one_of (rows id), rows);
  find = λ q rows. (ok [], rows);
  find_entities = λ q rows. (ok [], rows);
  delete_entity = λ d id rows. (ok tt, with_row id none rows);
  count_all = λ rows. (0, rows);
}

table-IsGormTable : IsGormTable table (λ d. d) (λ rows. rows)
table-IsGormTable = record {
  created = λ d rows h. (with_row d (some d) rows, refl, rw (==-refl d));
  found = λ id d rows h. rw h;
  missing = λ id rows h. rw h;
  deleted = λ d id rows. (with_row id none rows, refl, rw (==-refl id));
}

abbrev numbers : GormGenericRepository Rows ℕ ℕ
numbers = record {
  db = table;
  models = same;
  show_id = λ id. id ∷ [];
  all_fields = [];
  to_snake = λ name. name;
  to_lower = λ term. term;
  get_total_pages = λ total size. 0;
}

abbrev no_rows : Rows
no_rows id = none

abbrev gone : ℕ → GoError
gone = missing_entity numbers refl (λ n. n) (λ rows. rows) table-IsGormTable

add-delete-get_by_id_example :
    (w1 w2 : Rows) × (get_by_id numbers 7 no_rows ≡ (err (gone 7), no_rows))
    × (delete numbers 7 no_rows ≡ (err (gone 7), no_rows))
    × (add numbers 7 no_rows ≡ (ok 7, w1))
    × (get_by_id numbers 7 w1 ≡ (ok 7, w1))
    × (delete numbers 7 w1 ≡ (ok tt, w2))
    × (get_by_id numbers 7 w2 ≡ (err (gone 7), w2))
    × (delete numbers 7 w2 ≡ (err (gone 7), w2))
    × (is_not_found_error (gone 7) ≡ true)
add-delete-get_by_id_example =
    add-delete-get_by_id numbers refl (λ n. n) (λ rows. rows) table-IsGormTable 7 no_rows refl

-- A database whose state is a number, and transactions that give it back when they are rolled back.
abbrev no_rows_db : GormDb ℕ ℕ
no_rows_db = record {
  create = λ d w. (ok d, w + 1);
  updates = λ d w. (ok d, w + 1);
  first = λ id w. (ok id, w);
  count_by_id = λ id w. (0, w);
  delete_by_id = λ id w. (ok tt, w + 1);
}

abbrev transactions : Transactions ℕ ℕ ℕ
transactions = record {
  begin = λ w. (w, w);
  handle_of = λ tx. no_rows_db;
  commit = λ tx w. (ok tt, w);
  rollback = λ tx w. tx;
}

abbrev failing : GoError
failing = leaf (text "no stock")

-- It writes a row and fails.
abbrev next : Option (GormDb ℕ ℕ) → Action ℕ GoError ℕ
next none w = (err failing, w)
next (some db) w = let (result, w') = db.create 4 w in (err failing, w')

mediator_transaction_pipeline-run_in_tx_example :
    forgotten (mediator_transaction_pipeline transactions true next 3)
    ≡ run_in_tx transactions (λ db w. forgotten (next (some db) w)) 3
mediator_transaction_pipeline-run_in_tx_example =
    mediator_transaction_pipeline-run_in_tx transactions next 3

next-undone : run_in_tx transactions (λ db w. (err failing, w + 1)) 3 ≡ (err failing, 3)
unfolding run_in_tx
next-undone = refl
