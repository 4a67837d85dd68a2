-- ===== src/Pagination/Tests.antt =====
-- Runs of internal/pkg/utils/pagination.go, and the theorems about it at one input.
use go_ecommerce_microservic.Common.{◌+◌, ◌≡◌, refl, text, [], some, none, arith}
use go_ecommerce_microservic.Common.Word64.{minus}
use go_ecommerce_microservic.Pagination.{
  atoi, new_list_query, new_list_query_from_query_params, get_list_query_from_ctx, get_offset,
  get_limit,
}
use go_ecommerce_microservic.Pagination.Windows.{get_offset-next}

atoi-runs :
    (atoi (text "25") ≡ some 25)
    × (atoi (text "-1") ≡ some (minus 1))
    × (atoi (text "2x") ≡ none)
    × (atoi (text "+") ≡ none)
unfolding atoi
atoi-runs = (refl, refl, refl, refl)

-- Five to a page, the second page: the query holds page 2 and size 10.
new_list_query_from_query_params-run :
    new_list_query_from_query_params (text "5") (text "2") ≡ new_list_query 10 2
unfolding new_list_query_from_query_params atoi
new_list_query_from_query_params-run = refl

get_list_query_from_ctx-run :
    get_list_query_from_ctx [] (text "5") (text "2") [] ≡ some (new_list_query 5 2)
unfolding get_list_query_from_ctx atoi
get_list_query_from_ctx-run = refl

get_offset-next_test :
    (get_offset (new_list_query 5 1) ≡ 0)
    × (get_offset (new_list_query 5 4)
        ≡ get_offset (new_list_query 5 3) + get_limit (new_list_query 5 3))
get_offset-next_test = get_offset-next 5 2 (omega arith) (omega arith)
