-- ===== src/Specification.antt =====
-- internal/pkg/core/data/specification/specification.go: conditions that are rendered as the text
-- of a SQL `WHERE` clause with `?` placeholders, beside the values of the placeholders. A Go string
-- is the list of its code points. The Go interface is the sum of its four implementations; `any`
-- is a parameter `V`.
pub mod Placeholders
pub mod Precedence
mod Tests
use go_ecommerce_microservic.Common.{List, [], ◌∷◌, ◌++◌, Text, text}

mutual
  pub data Specification (V : Type 0) : Type 0 where
    join : Specifications V → Text → Specification V
    negation : Specification V → Specification V
    binary_operator : Text → Text → V → Specification V
    string : Text → Specification V

  pub data Specifications (V : Type 0) : Type 0 where
    nil : Specifications V
    cons : Specification V → Specifications V → Specifications V

-- `strings.Join`
unfoldable pub join_texts : List Text → Text → Text
join_texts [] separator = []
join_texts (q ∷ []) separator = q
join_texts (q ∷ r ∷ qs) separator = q ++ (separator ++ join_texts (r ∷ qs) separator)

-- `fmt.Sprintf(" %s ", s.separator)`
unfoldable pub padded : Text → Text
padded separator = text " " ++ (separator ++ text " ")

unfoldable mutual
  unfolding join_texts padded

  pub get_query : {V : Type 0} → Specification V → Text
  get_query (join specs separator) = join_texts (get_queries specs) (padded separator)
  get_query (negation s) = text " NOT (" ++ (get_query s ++ text ")")
  get_query (binary_operator field operator value) = field ++ (text " " ++ (operator ++ text " ?"))
  get_query (string s) = s

  pub get_queries : {V : Type 0} → Specifications V → List Text
  get_queries nil = []
  get_queries (cons s rest) = get_query s ∷ get_queries rest

unfoldable mutual
  pub get_values : {V : Type 0} → Specification V → List V
  get_values (join specs separator) = get_all_values specs
  get_values (negation s) = get_values s
  get_values (binary_operator field operator value) = value ∷ []
  get_values (string s) = []

  pub get_all_values : {V : Type 0} → Specifications V → List V
  get_all_values nil = []
  get_all_values (cons s rest) = get_values s ++ get_all_values rest

module _ {V : Type 0} where
  unfoldable pub and_of : Specifications V → Specification V
  and_of specs = join specs (text "AND")

  unfoldable pub or_of : Specifications V → Specification V
  or_of specs = join specs (text "OR")

  unfoldable pub not_of : Specification V → Specification V
  not_of s = negation s

  unfoldable pub equal : Text → V → Specification V
  equal field value = binary_operator field (text "=") value

  unfoldable pub greater_than : Text → V → Specification V
  greater_than field value = binary_operator field (text ">") value

  unfoldable pub greater_or_equal : Text → V → Specification V
  greater_or_equal field value = binary_operator field (text ">=") value

  unfoldable pub less_than : Text → V → Specification V
  less_than field value = binary_operator field (text "<") value

  -- The operator is `>=` in the source too.
  unfoldable pub less_or_equal : Text → V → Specification V
  less_or_equal field value = binary_operator field (text ">=") value

unfoldable pub is_null : {V : Type 0} → Text → Specification V
is_null field = string (field ++ text " IS NULL")
