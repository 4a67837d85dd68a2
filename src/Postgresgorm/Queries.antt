-- ===== src/Postgresgorm/Queries.antt =====
-- internal/pkg/postgresgorm/scopes/scopes.go and helpers/gormextensions (`Paginate`): the queries of pages
-- that gorm is asked. A query is the list of its conditions, with its window and its order.
pub mod Placeholders
use go_ecommerce_microservic.Common.{
  ℕ, Bool, true, false, Text, text, text_eq, List, [], ◌∷◌, ◌++◌, ◌==◌, if◌then◌else◌, Option, none,
  some, Outcome, ok, err, Action, pure, wrap, ◌>>=◌,
}
use go_ecommerce_microservic.HttpErrors.Chain.{GoError, annotated}
use go_ecommerce_microservic.Pagination.{ListQuery, FilterModel, get_offset, get_limit}
use go_ecommerce_microservic.Mongodb.{ListResult, new_list_result}

pub data Argument : Type 0 where
  one : Text → Argument
  many : List Text → Argument

-- `Where` and `Or` with their arguments, `Where` of a map, and `Unscoped`, which takes the soft-deleted rows in.
pub data Condition : Type 0 where
  where_true or_true : Text → List Argument → Condition
  where_fields : List (Text × Argument) → Condition
  unscoped : Condition

pub record Query : Type 0 where
  pub conditions : List Condition
  pub offset : Option ℕ
  pub limit : Option ℕ
  pub order : Text

abbrev pub no_conditions : Query
no_conditions = record { conditions = []; offset = none; limit = none; order = [] }

abbrev pub also : Condition → Query → Query
also c q = record q { conditions = q.conditions ++ (c ∷ []) }

unfoldable pub amount_greater_than_1000 : Query → Query
amount_greater_than_1000 q = also (where_true (text "amount > ?") (one (text "1000") ∷ [])) q

unfoldable pub filter_all_items_with_soft_deleted : Query → Query
filter_all_items_with_soft_deleted q = also unscoped q

unfoldable pub soft_deleted : Query → Query
soft_deleted q = also (where_true (text "deleted_at IS NOT NULL") []) (also unscoped q)

unfoldable pub filter_by_title : Text → Query → Query
filter_by_title title q = also (where_true (text "title = ?") (one title ∷ [])) q

unfoldable pub filter_by_id : Text → Query → Query
filter_by_id id q = also (where_true (text "id = ?") (one id ∷ [])) q

-- `strings.Split(value, ",")`: the part before the first comma, and the other parts
abbrev pub split_from : Text → Text → List Text
split_from part [] = part ∷ []
split_from part (c ∷ cs) =
    let next = split_from [] cs in
    let longer = split_from (part ++ (c ∷ [])) cs in if c == b',' then part ∷ next else longer

abbrev pub contains_pattern : Text → Text
contains_pattern value = text "%" ++ (value ++ text "%")

-- The `switch` on the comparison of a filter; others are left out of the query.
unfoldable pub filter_condition : FilterModel → Option Condition
unfolding text_eq
filter_condition filter =
    if text_eq filter.comparison (text "equals")
    then some (where_true (filter.field_name ++ text " = ?") (one filter.value ∷ []))
    else if text_eq filter.comparison (text "contains")
    then some (
        where_true (filter.field_name ++ text " LIKE ?") (one (contains_pattern filter.value) ∷ []))
    else if text_eq filter.comparison (text "in")
    then some
        (where_true (filter.field_name ++ text " IN (?)") (many (split_from [] filter.value) ∷ []))
    else none

abbrev pub with_condition : Option Condition → Query → Query
with_condition none q = q
with_condition (some c) q = also c q

abbrev pub with_filters : List FilterModel → Query → Query
with_filters [] q = q
with_filters (filter ∷ filters) q =
    with_filters filters (with_condition (filter_condition filter) q)

unfoldable pub filter_paginate : ListQuery → Query → Query
unfolding filter_condition
filter_paginate list_query q = with_filters list_query.filters (record q {
  offset = some (get_offset list_query);
  limit = some (get_limit list_query);
  order = list_query.order_by;
})

-- What is asked of gorm for the table of a data model: the rows of a query, read into `E`. The count of all
-- rows that the scope makes is not used, and the total of the result is never set.
unfoldable pub paginate :
    {W E : Type 0}
    → (ℕ → ℕ → ℕ)
    → (Query → Action W GoError (List E))
    → ListQuery
    → Query
    → Action W GoError (ListResult E)
unfolding filter_paginate
paginate get_total_pages find list_query q =
    wrap (annotated (text "error in finding products.")) (find (filter_paginate list_query q))
    >>= λ items. pure (new_list_result get_total_pages items list_query.size list_query.page 0)

-- The search for a term in the fields that are texts (`Search`, `prepareSearchDBQuery`).
unfoldable pub search_query :
    (Text → Text) → (Text → Text) → Text → List (Text × Bool) → Query → Query
search_query to_snake to_lower search_term [] q = q
search_query to_snake to_lower search_term ((name, true) ∷ fields) q =
    search_query to_snake to_lower search_term fields (
      also
        (or_true (to_snake name ++ text " LIKE ?")
          (one (contains_pattern (to_lower search_term)) ∷ []))
        q)
search_query to_snake to_lower search_term ((name, false) ∷ fields) q =
    search_query to_snake to_lower search_term fields q
