-- ===== src/Catalogs/Tests.antt =====
-- A table of products in memory, with prices that are numbers, for the theorems on the catalog.
use go_ecommerce_microservic.Common.{
  ℕ, ◌/◌, ◌*◌, Text, text, List, [], ◌∷◌, ◌≡◌, refl, Option, none, some, Outcome, ok, err, ◌==◌,
  if◌then◌else◌,
}
use go_ecommerce_microservic.HttpErrors.Chain.{GoError, leaf}
use go_ecommerce_microservic.HttpErrors.ProblemDetails.{Env}
use go_ecommerce_microservic.Postgresgorm.{GormDb, Transactions}
use go_ecommerce_microservic.Catalogs.{
  ProductDataModel, ProductEvent, CreateProduct, UpdateProduct, update_product, delete_product,
  get_product_by_id,
}
use go_ecommerce_microservic.Catalogs.Answers.{told, missing_product-told}
use go_ecommerce_microservic.Catalogs.Storing.{kept_row, params}

abbrev Row : Type 0
Row = ProductDataModel ℕ

abbrev Table : Type 0
Table = List Row

abbrev lookup : Table → ℕ → Option Row
lookup [] id = none
lookup (row ∷ rows) id = let rest = lookup rows id in if row.id == id then some row else rest

-- A time in microseconds, of one in nanoseconds.
abbrev micros : ℕ → ℕ
micros time = time / 1000 * 1000

abbrev stamped : Row → Row
stamped row = record row { updated_at = 77077 }

abbrev inserted : Option Row → Row → Table → Outcome GoError Row × Table
inserted none row rows = (ok (stamped row), kept_row micros (stamped row) ∷ rows)
inserted (some old) row rows = (err (leaf (text "duplicate key")), rows)

abbrev selected : Option Row → Table → Outcome GoError Row × Table
selected none rows = (err (leaf (text "record not found")), rows)
selected (some row) rows = (ok row, rows)

abbrev count : Option Row → ℕ
count none = 0
count (some row) = 1

abbrev in_memory : GormDb Table Row
in_memory = record {
  create = λ row rows. inserted (lookup rows row.id) row rows;
  updates = λ row rows. (ok (stamped row), stamped row ∷ rows);
  first = λ id rows. selected (lookup rows id) rows;
  count_by_id = λ id rows. (count (lookup rows id), rows);
  delete_by_id = λ id rows. (ok tt, []);
}

abbrev command : CreateProduct ℕ
command = record {
  product_id = 4;
  name = text "tea";
  description = text "green";
  price = 3;
  created_at = 9009;
}

abbrev show_id : ℕ → Text
show_id id = text "id"

abbrev publish : ProductEvent ℕ → Table → Outcome {0, 0} GoError Unit × Table
publish event rows = (ok tt, rows)

abbrev refuse : ProductEvent ℕ → Table → Outcome {0, 0} GoError Unit × Table
refuse event rows = (err (leaf (text "connection is nil")), rows)

abbrev row : Row
row = record {
  id = 4;
  name = text "tea";
  description = text "green";
  price = 3;
  created_at = 9000;
  updated_at = 77000;
  deleted_at = none;
}

abbrev env : Env
env = record {
  now = 7;
  verbose = λ err. text "stack";
  status_text = λ n. text "status";
  code_text = λ n. text "code";
}

abbrev transactions : Transactions Table Row Table
transactions = record {
  begin = λ rows. (rows, rows);
  handle_of = λ tx. in_memory;
  commit = λ tx rows. (ok tt, rows);
  rollback = λ tx rows. tx;
}

abbrev change : UpdateProduct ℕ
change = record {
  product_id = 5;
  name = text "tea";
  description = text "black";
  price = 2;
  updated_at = 8;
}

missing_product-told_example :
    let c = params in_memory show_id publish 1 2 none in
    (told env (get_product_by_id c 5 (row ∷ [])).0 ≡ some 404)
    × (told env (update_product c change (row ∷ [])).0 ≡ some 404)
    × (told env (delete_product c 5 (row ∷ [])).0 ≡ some 404)
missing_product-told_example =
    missing_product-told env (params in_memory show_id publish 1 2 none)
      (leaf (text "record not found")) refl change (row ∷ []) (row ∷ []) (row ∷ []) refl refl
