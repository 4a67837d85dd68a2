-- ===== src/HttpErrors/ProblemDetails.antt =====
-- internal/pkg/http/httperrors/problemdetails: what a client is told of an error over HTTP. The text that
-- `%+v` prints of an error with its stack, the time, and the texts of a status are the environment's. The
-- JSON of a problem is left out.
use go_ecommerce_microservic.Common.{
  ℕ, zero, suc, Bool, false, Text, text, decimal, ◌++◌, ◌==◌, Option, none, some, if◌then◌else◌,
  Outcome, ok, panic, bind,
}
use go_ecommerce_microservic.HttpErrors.Chain.{
  GoError, error_text, status, is_custom_error, get_custom_error, is_sentinel, is_no_rows,
  is_deadline_exceeded, as_validation_errors,
}
use go_ecommerce_microservic.HttpErrors.CustomErrors.{
  is_domain_error, is_application_error, is_api_error, is_bad_request_error, is_not_found_error,
  is_validation_error, is_un_authorized_error, is_forbidden_error, is_conflict_error,
  is_internal_server_error, is_un_marshaling_error, is_marshaling_error,
}

pub record Env : Type 0 where
  pub now : ℕ
  -- `fmt.Sprintf("%+v", err)`
  pub verbose : GoError → Text
  -- `http.StatusText` and `codes.Code.String`
  pub status_text : ℕ → Text
  pub code_text : ℕ → Text

unfoldable pub errors_with_stack : Env → GoError → Text
errors_with_stack env err = env.verbose err ++ text "\n"

pub record ProblemDetail : Type 0 where
  pub status : ℕ
  pub title : Text
  pub detail : Text
  pub type : Text
  pub timestamp : ℕ
  pub stack_trace : Text

unfoldable pub get_default_type : ℕ → Text
get_default_type status_code = text "https://httpstatuses.io/" ++ decimal status_code

-- `Error()` of a problem
unfoldable pub problem_text : ProblemDetail → Text
problem_text p =
    text "Error Title: "
    ++ (p.title
        ++ (text " - Error Status: "
            ++ (decimal p.status ++ (text " - Error Detail: " ++ p.detail))))

abbrev pub set_status : ProblemDetail → ℕ → ProblemDetail
set_status p status = record p { status = status }

abbrev pub set_title : ProblemDetail → Text → ProblemDetail
set_title p title = record p { title = title }

abbrev pub set_type : ProblemDetail → Text → ProblemDetail
set_type p type = record p { type = type }

abbrev pub set_detail : ProblemDetail → Text → ProblemDetail
set_detail p detail = record p { detail = detail }

abbrev pub set_stack_trace : ProblemDetail → Text → ProblemDetail
set_stack_trace p stack_trace = record p { stack_trace = stack_trace }

module _ (env : Env) where
  unfoldable pub new_problem_detail : ℕ → Text → Text → Text → ProblemDetail
  unfolding get_default_type
  new_problem_detail status title detail stack_trace = record {
    status = status;
    title = title;
    detail = detail;
    type = get_default_type status;
    timestamp = env.now;
    stack_trace = stack_trace;
  }

  unfoldable pub new_problem_detail_from_code : ℕ → Text → ProblemDetail
  unfolding new_problem_detail
  new_problem_detail_from_code status stack_trace =
      new_problem_detail status (env.status_text status) (text "") stack_trace

  unfoldable pub new_problem_detail_from_code_and_detail : ℕ → Text → Text → ProblemDetail
  unfolding new_problem_detail
  new_problem_detail_from_code_and_detail status detail stack_trace =
      new_problem_detail status (env.status_text status) detail stack_trace

  unfoldable pub new_validation_problem_detail : Text → Text → ProblemDetail
  unfolding new_problem_detail
  new_validation_problem_detail = new_problem_detail 400 (text "Bad Request")

  unfoldable pub new_conflict_problem_detail : Text → Text → ProblemDetail
  unfolding new_problem_detail
  new_conflict_problem_detail = new_problem_detail 409 (text "Conflict Error")

  unfoldable pub new_bad_request_problem_detail : Text → Text → ProblemDetail
  unfolding new_problem_detail
  new_bad_request_problem_detail = new_problem_detail 400 (text "Bad Request")

  unfoldable pub new_not_found_error_problem_detail : Text → Text → ProblemDetail
  unfolding new_problem_detail
  new_not_found_error_problem_detail = new_problem_detail 404 (text "Not Found")

  unfoldable pub new_un_authorized_error_problem_detail : Text → Text → ProblemDetail
  unfolding new_problem_detail
  new_un_authorized_error_problem_detail = new_problem_detail 401 (text "Unauthorized")

  unfoldable pub new_forbidden_problem_detail : Text → Text → ProblemDetail
  unfolding new_problem_detail
  new_forbidden_problem_detail = new_problem_detail 403 (text "Forbidden")

  unfoldable pub new_internal_server_problem_detail : Text → Text → ProblemDetail
  unfolding new_problem_detail
  new_internal_server_problem_detail = new_problem_detail 500 (text "Internal Server Error")

  -- The type is that of a bad request, whatever the status is.
  unfoldable pub new_domain_problem_detail : ℕ → Text → Text → ProblemDetail
  unfolding new_problem_detail get_default_type
  new_domain_problem_detail status detail stack_trace =
      record (new_problem_detail status (text "Domain Model Error") detail stack_trace) {
        type = get_default_type 400;
      }

  unfoldable pub new_application_problem_detail : ℕ → Text → Text → ProblemDetail
  unfolding new_problem_detail
  new_application_problem_detail status =
      new_problem_detail status (text "Application Service Error")

  unfoldable pub new_api_problem_detail : ℕ → Text → Text → ProblemDetail
  unfolding new_problem_detail
  new_api_problem_detail status = new_problem_detail status (text "Api Error")

  -- The two switches of `ParseError`, for an error with a custom error in it and for one without.
  unfoldable pub parse_custom_error : GoError → GoError → ProblemDetail
  unfolding is_custom_error is_domain_error is_application_error is_api_error is_bad_request_error
      is_not_found_error is_validation_error is_un_authorized_error is_forbidden_error
      is_conflict_error is_internal_server_error is_un_marshaling_error is_marshaling_error
      new_domain_problem_detail new_application_problem_detail new_api_problem_detail
      new_bad_request_problem_detail new_not_found_error_problem_detail
      new_validation_problem_detail new_un_authorized_error_problem_detail
      new_forbidden_problem_detail new_conflict_problem_detail new_internal_server_problem_detail
      new_problem_detail_from_code_and_detail errors_with_stack error_text
  parse_custom_error err custom_err =
      let stack = errors_with_stack env err in
      let detail = error_text custom_err in
      if is_domain_error err (status custom_err)
      then new_domain_problem_detail (status custom_err) detail stack
      else if is_application_error err (status custom_err)
      then new_application_problem_detail (status custom_err) detail stack
      else if is_api_error err (status custom_err)
      then new_api_problem_detail (status custom_err) detail stack
      else if is_bad_request_error err
      then new_bad_request_problem_detail detail stack
      else if is_not_found_error err
      then new_not_found_error_problem_detail detail stack
      else if is_validation_error err
      then new_validation_problem_detail detail stack
      else if is_un_authorized_error err
      then new_un_authorized_error_problem_detail detail stack
      else if is_forbidden_error err
      then new_forbidden_problem_detail detail stack
      else if is_conflict_error err
      then new_conflict_problem_detail detail stack
      else if is_internal_server_error err
      then new_internal_server_problem_detail detail stack
      else if is_custom_error err
      then new_problem_detail_from_code_and_detail (status custom_err) detail stack
      else if is_un_marshaling_error err
      then new_internal_server_problem_detail (error_text err) stack
      else if is_marshaling_error err
      then new_internal_server_problem_detail (error_text err) stack
      else new_internal_server_problem_detail (error_text err) stack

  unfoldable pub parse_other_error : GoError → ProblemDetail
  unfolding new_problem_detail new_validation_problem_detail new_not_found_error_problem_detail
      new_internal_server_problem_detail errors_with_stack error_text
  parse_other_error err =
      let stack = errors_with_stack env err in
      if is_sentinel is_no_rows err
      then new_not_found_error_problem_detail (error_text err) stack
      else if is_sentinel is_deadline_exceeded err
      then new_problem_detail 408 (text "Request Timeout") (error_text err) stack
      else elim (as_validation_errors err) [
        | some message ↦ new_validation_problem_detail message stack
        | none ↦ new_internal_server_problem_detail (error_text err) stack
      ]

  unfoldable pub parse_error : Option GoError → Option ProblemDetail
  unfolding get_custom_error parse_custom_error parse_other_error
  parse_error none = none
  parse_error (some err) = elim (get_custom_error err) [
    | some custom_err ↦ some (parse_custom_error err custom_err)
    | none ↦ some (parse_other_error err)
  ]

-- The status that `writeHeaderTo` writes.
unfoldable pub written_status : ProblemDetail → ℕ
written_status p = if p.status == 0 then 500 else p.status

-- The registry of `Map` and `ResolveProblemDetail`. The error is any; the assertion to a stack tracer,
-- `errors.Unwrap` and the type of an error are parameters; `GetReflectType` of nil panics, since
-- `reflect.TypeOf(nil)` is a nil type, whose kind is asked for.
module _ {E T : Type 0} (is_stack_tracer : E → Bool) (unwrap : E → Option E)
    (reflect_type : E → T) where
  abbrev pub Registry : Type 0
  Registry = T → Option (Option E → ProblemDetail)

  abbrev pub traces : Option E → Bool
  traces none = false
  traces (some e) = is_stack_tracer e

  abbrev pub unwrapped : Option E → Option E
  unwrapped none = none
  unwrapped (some e) = unwrap e

  -- The loop, on fuel; in every round it unwraps the error that was given.
  abbrev pub resolve : ℕ → Option E → Option E → Option (Option E)
  resolve zero err resolved_err = none
  resolve (suc fuel) err resolved_err =
      let rest = resolve fuel err (unwrapped err) in
      if traces resolved_err then rest else some resolved_err

  abbrev pub problem_of : Option (Option E → ProblemDetail) → Option E → Option ProblemDetail
  problem_of none err = none
  problem_of (some problem) err = some (problem err)

  abbrev pub get_reflect_type : Option E → Outcome {0, 0} ⊥ T
  get_reflect_type none = panic
  get_reflect_type (some e) = ok (reflect_type e)

  abbrev pub problem_for : Registry → Option E → Outcome {0, 0} ⊥ (Option ProblemDetail)
  problem_for registry resolved_err =
      bind (get_reflect_type resolved_err) λ type. ok (problem_of (registry type) resolved_err)

  -- Nothing when the fuel runs out.
  unfoldable pub resolve_problem_detail :
      Registry → ℕ → Option E → Option (Outcome {0, 0} ⊥ (Option ProblemDetail))
  resolve_problem_detail registry fuel err = elim (resolve fuel err err) [
    | none ↦ none
    | some resolved_err ↦ some (problem_for registry resolved_err)
  ]
