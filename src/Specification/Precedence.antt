-- ===== src/Specification/Precedence.antt =====
-- What the rendered text loses (internal/pkg/core/data/specification/specification.go).
use mathlib.Core.List.{append_assoc, append-nil}
use go_ecommerce_microservic.Common.{Text, ◌≡◌, refl}
use go_ecommerce_microservic.Specification.{
  Specification, cons, nil, get_query, get_values, and_of, or_of, less_or_equal, greater_or_equal,
}

-- The conjunction of (a or b) with c, and the disjunction of a with (b and c), have the same query
-- and the same values, for all three conditions: `And` and `Or` put no parentheses round their parts.
pub and-or_ambiguous :
    {V : Type 0} (a b c : Specification V)
    → (get_query (and_of (cons (or_of (cons a (cons b nil))) (cons c nil)))
        ≡ get_query (or_of (cons a (cons (and_of (cons b (cons c nil))) nil))))
      × (get_values (and_of (cons (or_of (cons a (cons b nil))) (cons c nil)))
          ≡ get_values (or_of (cons a (cons (and_of (cons b (cons c nil))) nil))))
unfolding get_query get_values and_of or_of
and-or_ambiguous a b c = (simp append_assoc, simp (append_assoc, append-nil))

-- `LessOrEqual` renders and fills the same condition as `GreaterOrEqual`, for every field and value.
pub less_or_equal-eq-greater_or_equal :
    {V : Type 0} (field : Text) (value : V)
    → (get_query (less_or_equal field value) ≡ get_query (greater_or_equal field value))
      × (get_values (less_or_equal field value) ≡ get_values (greater_or_equal field value))
unfolding less_or_equal greater_or_equal
less_or_equal-eq-greater_or_equal field value = (refl, refl)
