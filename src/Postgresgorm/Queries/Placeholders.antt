-- ===== src/Postgresgorm/Queries/Placeholders.antt =====
-- The placeholders of the conditions that internal/pkg/postgresgorm/scopes/scopes.go builds.
use go_ecommerce_microservic.Common.{
  inl, inr, Bool-cases, ◌≡◌, Text, text, List, [], ◌∷◌, ◌++◌, length, All, Bool, true, false, arith,
  Option, none, some, text_eq,
}
use go_ecommerce_microservic.Specification.Placeholders.{placeholders, placeholders-append}
use go_ecommerce_microservic.Pagination.{ListQuery, FilterModel}
use go_ecommerce_microservic.Postgresgorm.Queries.{
  Condition, where_true, or_true, Query, filter_condition, with_condition, with_filters,
  filter_paginate, search_query,
}

-- Every placeholder of a condition has its argument.
abbrev pub IsFilled : Condition → Type 0
IsFilled (where_true clause arguments) = placeholders clause ≡ length arguments
IsFilled (or_true clause arguments) = placeholders clause ≡ length arguments
IsFilled _ = Unit

All-snoc :
    (cs : List Condition) (c : Condition)
    → All IsFilled cs
    → IsFilled c
    → All IsFilled (cs ++ (c ∷ []))
All-snoc [] c all filled = (filled, tt)
All-snoc (d ∷ cs) c all filled = (all.0, All-snoc cs c all.1 filled)

abbrev AllOf : Option Condition → Type 0
AllOf none = Unit
AllOf (some c) = IsFilled c

with_suffix :
    (name suffix : Text)
    → placeholders name ≡ 0
    → placeholders (name ++ suffix) ≡ placeholders suffix
with_suffix name suffix h = omega (arith, placeholders-append name suffix)

filter_condition-IsFilled :
    (filter : FilterModel) → placeholders filter.field_name ≡ 0 → AllOf (filter_condition filter)
unfolding filter_condition
filter_condition-IsFilled filter h =
    let suffixed = λ (suffix : Text). with_suffix filter.field_name suffix h in
    elim (Bool-cases (text_eq filter.comparison (text "equals"))) [
      | inl equals ↦ rw equals (suffixed (text " = ?"))
      | inr e ↦ elim (Bool-cases (text_eq filter.comparison (text "contains"))) [
        | inl contains ↦ rw (e, contains) (suffixed (text " LIKE ?"))
        | inr f ↦ elim (Bool-cases (text_eq filter.comparison (text "in"))) [
          | inl listed ↦ rw (e, f, listed) (suffixed (text " IN (?)"))
          | inr g ↦ rw (e, f, g) tt
        ]
      ]
    ]

with_condition-IsFilled :
    (c : Option Condition) (q : Query)
    → AllOf c
    → All IsFilled q.conditions
    → All IsFilled (with_condition c q).conditions
with_condition-IsFilled none q filled all = all
with_condition-IsFilled (some c) q filled all = All-snoc q.conditions c all filled

with_filters-IsFilled :
    (filters : List FilterModel) (q : Query)
    → All (λ f. placeholders f.field_name ≡ 0) filters
    → All IsFilled q.conditions
    → All IsFilled (with_filters filters q).conditions
with_filters-IsFilled [] q plain all = all
with_filters-IsFilled (filter ∷ filters) q plain all =
    with_filters-IsFilled filters (with_condition (filter_condition filter) q) plain.1 (
      with_condition-IsFilled (filter_condition filter) q (filter_condition-IsFilled filter plain.0)
        all)

search_query-IsFilled :
    (to_snake to_lower : Text → Text) (search_term : Text) (fields : List (Text × Bool)) (q : Query)
    → ((name : Text) → placeholders (to_snake name) ≡ 0)
    → All IsFilled q.conditions
    → All IsFilled (search_query to_snake to_lower search_term fields q).conditions
unfolding search_query
search_query-IsFilled to_snake to_lower search_term [] q snake all = all
search_query-IsFilled to_snake to_lower search_term ((name, true) ∷ fields) q snake all =
    search_query-IsFilled to_snake to_lower search_term fields _ snake
      (All-snoc q.conditions _ all (with_suffix (to_snake name) (text " LIKE ?") (snake name)))
search_query-IsFilled to_snake to_lower search_term ((name, false) ∷ fields) q snake all =
    search_query-IsFilled to_snake to_lower search_term fields q snake all

-- The page and the search of a client ask gorm for a query in which every condition has as many arguments
-- as placeholders, whatever its filters compare and hold, when the conditions it starts from do and the
-- names of fields, which stand in the text of the conditions, have no `?` in them.
pub filter_paginate-IsFilled :
    (list_query : ListQuery) (to_snake to_lower : Text → Text) (search_term : Text)
    (fields : List (Text × Bool)) (q : Query)
    → All (λ f. placeholders f.field_name ≡ 0) list_query.filters
    → ((name : Text) → placeholders (to_snake name) ≡ 0)
    → All IsFilled q.conditions
    → All IsFilled
        (filter_paginate list_query
          (search_query to_snake to_lower search_term fields q)).conditions
unfolding filter_paginate
filter_paginate-IsFilled list_query to_snake to_lower search_term fields q plain snake h =
    with_filters-IsFilled list_query.filters _ plain
      (search_query-IsFilled to_snake to_lower search_term fields q snake h)
