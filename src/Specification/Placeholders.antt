-- ===== src/Specification/Placeholders.antt =====
-- The placeholders of a rendered condition and the values that fill them
-- (internal/pkg/core/data/specification/specification.go).
use go_ecommerce_microservic.Common.{
  Text, text, ℕ, suc, ◌+◌, ◌≡◌, List, [], ◌∷◌, ◌++◌, arith, ◌==◌, if◌then◌else◌, length,
  length-append,
}
use go_ecommerce_microservic.Specification.{
  Specification, join, negation, binary_operator, string, Specifications, nil, cons, join_texts,
  padded, get_query, get_queries, get_values, get_all_values,
}

-- How many `?` a text holds.
abbrev pub placeholders : Text → ℕ
placeholders [] = 0
placeholders (c ∷ s) = let rest = placeholders s in if c == b'?' then suc rest else rest

abbrev total : List Text → ℕ
total [] = 0
total (q ∷ qs) = placeholders q + total qs

-- No field name, operator, separator or raw condition of the specification holds a `?` itself.
abbrev mutual
  pub IsPlain : {V : Type 0} → Specification V → Type 0
  IsPlain (join specs separator) = (placeholders separator ≡ 0) × ArePlain specs
  IsPlain (negation s) = IsPlain s
  IsPlain (binary_operator field operator value) =
      (placeholders field ≡ 0) × (placeholders operator ≡ 0)
  IsPlain (string s) = placeholders s ≡ 0

  pub ArePlain : {V : Type 0} → Specifications V → Type 0
  ArePlain nil = Unit
  ArePlain (cons s rest) = IsPlain s × ArePlain rest

pub placeholders-append : (s t : Text) → placeholders (s ++ t) ≡ placeholders s + placeholders t
placeholders-append [] t = omega arith
placeholders-append (c ∷ s) t = ground (arith, placeholders-append s t)

placeholders-padded : (separator : Text) → placeholders (padded separator) ≡ placeholders separator
unfolding padded
placeholders-padded separator = omega (arith, placeholders-append separator (text " "))

placeholders-join_texts :
    (qs : List Text) (separator : Text)
    → placeholders separator ≡ 0
    → placeholders (join_texts qs separator) ≡ total qs
unfolding join_texts
placeholders-join_texts [] separator h = omega arith
placeholders-join_texts (q ∷ []) separator h = omega arith
placeholders-join_texts (q ∷ r ∷ qs) separator h = omega (
  arith,
  placeholders-append q (separator ++ join_texts (r ∷ qs) separator),
  placeholders-append separator (join_texts (r ∷ qs) separator),
  placeholders-join_texts (r ∷ qs) separator h,
)

mutual
  unfolding get_query get_values

  placeholders-query :
      {V : Type 0} (s : Specification V)
      → IsPlain s
      → placeholders (get_query s) ≡ length (get_values s)
  placeholders-query (join specs separator) h = omega (
    arith,
    placeholders-join_texts (get_queries specs) (padded separator)
        (omega (arith, placeholders-padded separator, h.0)),
    total-queries specs h.1,
  )
  placeholders-query (negation s) h =
      omega (arith, placeholders-append (get_query s) (text ")"), placeholders-query s h)
  placeholders-query (binary_operator field operator value) h = omega (
    arith,
    placeholders-append field (text " " ++ (operator ++ text " ?")),
    placeholders-append operator (text " ?"),
  )
  placeholders-query (string s) h = h

  total-queries :
      {V : Type 0} (specs : Specifications V)
      → ArePlain specs
      → total (get_queries specs) ≡ length (get_all_values specs)
  total-queries nil h = omega arith
  total-queries (cons s rest) h = omega (
    arith,
    length-append (get_values s) (get_all_values rest),
    placeholders-query s h.0,
    total-queries rest h.1,
  )

-- If no field name, operator, separator or raw condition holds a `?`, the query of a specification
-- has as many placeholders as `GetValues` gives values, however the specification is nested.
pub placeholders-match_values :
    {V : Type 0} (s : Specification V)
    → IsPlain s
    → placeholders (get_query s) ≡ length (get_values s)
placeholders-match_values s h = placeholders-query s h
