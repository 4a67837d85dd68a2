-- ===== src/Pagination.antt =====
-- internal/pkg/utils/pagination.go: the query of a page of a list. `int` is a 64-bit word. The binding
-- of the query parameters is that of echo: its results are arguments. The total number of pages, which
-- is computed in float64, the JSON texts and the mapping of results are left out.
pub mod Windows
mod Tests
use go_ecommerce_microservic.Common.{
  ℕ, zero, suc, ◌+◌, ◌-◌, ◌*◌, ◌%◌, ◌^◌, Bool, true, false, ◌&&◌, Text, List, [], ◌∷◌, Option, none,
  some, ◌⊎◌, inl, inr, ◌==◌, leb, ltb, if◌then◌else◌,
}
use go_ecommerce_microservic.Common.Word64.{modulus, minus, add64}

-- `strconv.Atoi`: the digits, and then the sign and the range of int64.
abbrev pub digits : ℕ → Text → Option ℕ
digits n [] = some n
digits n (c ∷ cs) =
    let rest = digits (n * 10 + (c - 48)) cs in if leb 48 c && leb c 57 then rest else none

abbrev pub some_digits : Text → Option ℕ
some_digits [] = none
some_digits (c ∷ cs) = digits 0 (c ∷ cs)

abbrev pub in_range : ℕ → Option ℕ → Option ℕ
in_range bound none = none
in_range bound (some n) = if ltb n bound then some n else none

abbrev negated : Option ℕ → Option ℕ
negated none = none
negated (some n) = some ((modulus - n) % modulus)

unfoldable pub atoi : Text → Option ℕ
atoi [] = none
atoi (c ∷ cs) =
    if c == b'-'
    then negated (in_range (2 ^ 63 + 1) (some_digits cs))
    else if c == b'+'
    then in_range (2 ^ 63) (some_digits cs)
    else in_range (2 ^ 63) (some_digits (c ∷ cs))

pub record FilterModel : Type 0 where
  pub field_name : Text
  pub value : Text
  pub comparison : Text

pub record ListQuery : Type 0 where
  pub size : ℕ
  pub page : ℕ
  pub order_by : Text
  pub filters : List FilterModel

abbrev pub default_size : ℕ
default_size = 10

abbrev pub default_page : ℕ
default_page = 1

abbrev pub new_list_query : ℕ → ℕ → ListQuery
new_list_query size page = record { size = size; page = page; order_by = []; filters = [] }

-- The number of a text, unless it is 0 or none.
abbrev pub number_or : ℕ → Option ℕ → ℕ
number_or n none = n
number_or n (some k) = if k == 0 then n else k

-- The size is written to the page in the source too.
unfoldable pub new_list_query_from_query_params : Text → Text → ListQuery
new_list_query_from_query_params size page =
    new_list_query default_size (number_or (number_or default_page (atoi size)) (atoi page))

-- `SetSize` and `SetPage`: nothing where the text is no number.
unfoldable pub set_size : Text → ListQuery → Option ListQuery
set_size [] q = some (record q { size = default_size })
set_size (c ∷ cs) q = elim (atoi (c ∷ cs)) [ none ↦ none | some n ↦ some (record q { size = n }) ]

unfoldable pub set_page : Text → ListQuery → Option ListQuery
set_page [] q = some (record q { page = default_page })
set_page (c ∷ cs) q = elim (atoi (c ∷ cs)) [ none ↦ none | some n ↦ some (record q { page = n }) ]

abbrev pub set_order_by : Text → ListQuery → ListQuery
set_order_by order_by q = record q { order_by = order_by }

abbrev and_then : Option ListQuery → (ListQuery → Option ListQuery) → Option ListQuery
and_then none f = none
and_then (some q) f = f q

-- `GetListQueryFromCtx`, from what the binder gave; its error is overwritten before it is looked at.
unfoldable pub get_list_query_from_ctx : List FilterModel → Text → Text → Text → Option ListQuery
unfolding set_size set_page
get_list_query_from_ctx filters size page order_by =
    and_then (set_page page (record { size = 0; page = 0; order_by = []; filters = filters }))
      λ q. and_then (set_size size q) λ q'. some (set_order_by order_by q')

unfoldable pub get_offset : ListQuery → ℕ
get_offset q = if q.page == 0 then 0 else (add64 q.page (minus 1) * q.size) % modulus

abbrev pub get_limit : ListQuery → ℕ
get_limit q = q.size
