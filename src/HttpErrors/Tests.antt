-- ===== src/HttpErrors/Tests.antt =====
-- Concrete errors, for the theorems on internal/pkg/http/httperrors and internal/pkg/grpc/grpcErrors.
use go_ecommerce_microservic.Common.{
  ℕ, zero, suc, Bool, true, false, ◌≡◌, refl, text, [], Option, none, some, ok, decimal,
}
use go_ecommerce_microservic.HttpErrors.Chain.{error_text, Kind, GoError, leaf, annotated, custom}
use go_ecommerce_microservic.HttpErrors.CustomErrors.{new_not_found_error}
use go_ecommerce_microservic.HttpErrors.ProblemDetails.{
  Env, ProblemDetail, Registry, get_default_type, parse_error, resolve_problem_detail,
  new_bad_request_problem_detail,
}
use go_ecommerce_microservic.HttpErrors.Classes.{one_custom, map_reported, parse_error-one_custom}
use go_ecommerce_microservic.HttpErrors.Resolving.{resolve_problem_detail-ends}

abbrev env : Env
env = record {
  now = 7;
  verbose = λ err. text "stack";
  status_text = λ n. text "status";
  code_text = λ n. text "code";
}

get_default_type_test : get_default_type 404 ≡ text "https://httpstatuses.io/404"
unfolding get_default_type decimal
get_default_type_test = refl

-- The two errors of `Test_Parse_Error`.
abbrev missing : GoError
missing =
    one_custom [] Kind.not_found 400 (text "notfound error")
      (annotated (text "notfound error") (leaf (text "not found error")))

parse_error-one_custom_example :
    map_reported (parse_error env (some missing))
    ≡ some (404, text "notfound error: not found error")
unfolding error_text
parse_error-one_custom_example =
    parse_error-one_custom env [] Kind.not_found 400 (text "notfound error")
      (annotated (text "notfound error") (leaf (text "not found error"))) refl

missing-new_not_found_error : new_not_found_error (text "notfound error") ≡ missing
unfolding new_not_found_error
missing-new_not_found_error = refl

-- A missing entity that was wrapped around a bad request is answered as a bad request.
abbrev masked : GoError
masked =
    custom Kind.not_found 404 (text "m") (custom Kind.bad_request 400 (text "b") (leaf (text "l")))

abbrev reported_status : Option ProblemDetail → ℕ
reported_status none = 0
reported_status (some p) = p.status

masked_test : reported_status (parse_error env (some masked)) ≡ 400
unfolding parse_error
masked_test = refl

-- Errors are numbers: 0 carries no stack trace, and the others wrap their predecessor.
abbrev is_stack_tracer : ℕ → Bool
is_stack_tracer zero = false
is_stack_tracer (suc n) = true

abbrev unwrap : ℕ → Option ℕ
unwrap zero = none
unwrap (suc n) = some n

abbrev reflect_type : ℕ → ℕ
reflect_type n = suc n

abbrev registry : Registry is_stack_tracer unwrap reflect_type
registry (suc zero) = some λ err. new_bad_request_problem_detail env [] []
registry _ = none

-- The error 1 wraps 0, which is found; 2 wraps 1, which carries a stack trace too.
resolve_problem_detail-ends_example :
    resolve_problem_detail is_stack_tracer unwrap reflect_type registry 2 (some 2) ≡ none
resolve_problem_detail-ends_example =
    resolve_problem_detail-ends is_stack_tracer unwrap reflect_type registry (some 2) 0

resolve_problem_detail_test :
    resolve_problem_detail is_stack_tracer unwrap reflect_type registry 2 (some 1)
    ≡ some (ok (some (new_bad_request_problem_detail env [] [])))
unfolding resolve_problem_detail
resolve_problem_detail_test = refl
