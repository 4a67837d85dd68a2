-- ===== src/Specification/Tests.antt =====
-- Runs of internal/pkg/core/data/specification/specification.go, and the theorems at one input.
use go_ecommerce_microservic.Common.{text, ℕ, ◌≡◌, refl, [], ◌∷◌, arith, length}
use go_ecommerce_microservic.Specification.{
  Specification, cons, nil, get_query, get_values, and_of, or_of, not_of, equal, greater_than,
  is_null, less_or_equal, greater_or_equal,
}
use go_ecommerce_microservic.Specification.Placeholders.{placeholders, placeholders-match_values}
use go_ecommerce_microservic.Specification.Precedence.{
  and-or_ambiguous, less_or_equal-eq-greater_or_equal,
}

abbrev available : Specification ℕ
available = and_of (
    cons (or_of (cons (equal (text "name") 7) (cons (is_null (text "name")) nil)))
      (cons (not_of (greater_than (text "price") 100)) nil))

query-available : get_query available ≡ text "name = ? OR name IS NULL AND  NOT (price > ?)"
unfolding get_query and_of or_of not_of equal greater_than is_null
query-available = refl

values-available : get_values available ≡ 7 ∷ 100 ∷ []
unfolding get_values and_of or_of not_of equal greater_than is_null
values-available = refl

placeholders-match_values_example :
    placeholders (get_query available) ≡ length (get_values available)
unfolding and_of or_of not_of equal greater_than is_null
placeholders-match_values_example = placeholders-match_values available (omega arith)

and-or_ambiguous_test :
    let a = equal {V = ℕ} (text "a") 1 in
    let b = equal {V = ℕ} (text "b") 2 in
    let c = equal {V = ℕ} (text "c") 3 in
    (get_query (and_of (cons (or_of (cons a (cons b nil))) (cons c nil)))
      ≡ get_query (or_of (cons a (cons (and_of (cons b (cons c nil))) nil))))
    × (get_values (and_of (cons (or_of (cons a (cons b nil))) (cons c nil)))
        ≡ get_values (or_of (cons a (cons (and_of (cons b (cons c nil))) nil))))
and-or_ambiguous_test =
    and-or_ambiguous (equal {V = ℕ} (text "a") 1) (equal (text "b") 2) (equal (text "c") 3)

less_or_equal-eq-greater_or_equal_test :
    (get_query (less_or_equal {V = ℕ} (text "price") 5)
      ≡ get_query (greater_or_equal {V = ℕ} (text "price") 5))
    × (get_values (less_or_equal {V = ℕ} (text "price") 5)
        ≡ get_values (greater_or_equal {V = ℕ} (text "price") 5))
less_or_equal-eq-greater_or_equal_test = less_or_equal-eq-greater_or_equal (text "price") 5
