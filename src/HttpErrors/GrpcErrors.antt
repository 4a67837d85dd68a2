-- ===== src/HttpErrors/GrpcErrors.antt =====
-- internal/pkg/grpc/grpcErrors: what a client is told of an error over gRPC. A code is its number; the
-- JSON of an error and the response of the gRPC library are left out.
use go_ecommerce_microservic.Common.{
  ℕ, ◌%◌, ◌^◌, Text, text, decimal, ◌++◌, Option, none, some, if◌then◌else◌,
}
use go_ecommerce_microservic.HttpErrors.Chain.{
  GoError, error_text, status, is_custom_error, get_custom_error, is_sentinel, is_no_rows,
  is_deadline_exceeded, as_validation_errors,
}
use go_ecommerce_microservic.HttpErrors.CustomErrors.{
  is_domain_error, is_application_error, is_api_error, is_bad_request_error, is_not_found_error,
  is_validation_error, is_un_authorized_error, is_forbidden_error, is_conflict_error,
  is_internal_server_error, is_un_marshaling_error, is_marshaling_error,
}
use go_ecommerce_microservic.HttpErrors.ProblemDetails.{Env, errors_with_stack}

-- The numbers of google.golang.org/grpc/codes
abbrev pub invalid_argument : ℕ
invalid_argument = 3

abbrev pub deadline_exceeded_code : ℕ
deadline_exceeded_code = 4

abbrev pub not_found_code : ℕ
not_found_code = 5

abbrev pub already_exists : ℕ
already_exists = 6

abbrev pub permission_denied : ℕ
permission_denied = 7

abbrev pub internal_code : ℕ
internal_code = 13

abbrev pub unauthenticated : ℕ
unauthenticated = 16

-- `codes.Code(...)` of an int: a code is a uint32.
abbrev pub to_code : ℕ → ℕ
to_code status = status % 2 ^ 32

pub record GrpcErr : Type 0 where
  pub status : ℕ
  pub title : Text
  pub detail : Text
  pub timestamp : ℕ
  pub stack_trace : Text

-- `Error()` of a gRPC error, with the number of its code
unfoldable pub grpc_error_text : GrpcErr → Text
grpc_error_text p =
    text "Error Title: "
    ++ (p.title
        ++ (text " - Error Status: "
            ++ (decimal p.status ++ (text " - Error Detail: " ++ p.detail))))

module _ (env : Env) where
  unfoldable pub new_grpc_error : ℕ → Text → Text → Text → GrpcErr
  new_grpc_error status title detail stack_trace = record {
    status = status;
    title = title;
    detail = detail;
    timestamp = env.now;
    stack_trace = stack_trace;
  }

  unfoldable pub new_validation_grpc_error : Text → Text → GrpcErr
  unfolding new_grpc_error
  new_validation_grpc_error = new_grpc_error invalid_argument (text "Bad Request")

  unfoldable pub new_conflict_grpc_error : Text → Text → GrpcErr
  unfolding new_grpc_error
  new_conflict_grpc_error = new_grpc_error already_exists (text "Conflict Error")

  unfoldable pub new_bad_request_grpc_error : Text → Text → GrpcErr
  unfolding new_grpc_error
  new_bad_request_grpc_error = new_grpc_error invalid_argument (text "Bad Request")

  unfoldable pub new_not_found_error_grpc_error : Text → Text → GrpcErr
  unfolding new_grpc_error
  new_not_found_error_grpc_error = new_grpc_error not_found_code (text "Not Found")

  unfoldable pub new_un_authorized_error_grpc_error : Text → Text → GrpcErr
  unfolding new_grpc_error
  new_un_authorized_error_grpc_error = new_grpc_error unauthenticated (text "Unauthorized")

  unfoldable pub new_forbidden_grpc_error : Text → Text → GrpcErr
  unfolding new_grpc_error
  new_forbidden_grpc_error = new_grpc_error permission_denied (text "Forbidden")

  unfoldable pub new_internal_server_grpc_error : Text → Text → GrpcErr
  unfolding new_grpc_error
  new_internal_server_grpc_error = new_grpc_error internal_code (text "Internal Server Error")

  unfoldable pub new_domain_grpc_error : ℕ → Text → Text → GrpcErr
  unfolding new_grpc_error
  new_domain_grpc_error status = new_grpc_error status (text "Domain Model Error")

  unfoldable pub new_application_grpc_error : ℕ → Text → Text → GrpcErr
  unfolding new_grpc_error
  new_application_grpc_error status = new_grpc_error status (text "Application Service Error")

  unfoldable pub new_api_grpc_error : ℕ → Text → Text → GrpcErr
  unfolding new_grpc_error
  new_api_grpc_error status = new_grpc_error status (text "Api Error")

  -- The two switches of `ParseError`, for an error with a custom error in it and for one without.
  unfoldable pub parse_custom_grpc_error : GoError → GoError → GrpcErr
  unfolding is_custom_error is_domain_error is_application_error is_api_error is_bad_request_error
      is_not_found_error is_validation_error is_un_authorized_error is_forbidden_error
      is_conflict_error is_internal_server_error is_un_marshaling_error is_marshaling_error
      new_domain_grpc_error new_application_grpc_error new_api_grpc_error new_bad_request_grpc_error
      new_not_found_error_grpc_error new_validation_grpc_error new_un_authorized_error_grpc_error
      new_forbidden_grpc_error new_conflict_grpc_error new_internal_server_grpc_error new_grpc_error
      errors_with_stack error_text
  parse_custom_grpc_error err custom_err =
      let stack = errors_with_stack env err in
      let detail = error_text custom_err in
      if is_domain_error err (status custom_err)
      then new_domain_grpc_error (to_code (status custom_err)) detail stack
      else if is_application_error err (status custom_err)
      then new_application_grpc_error (to_code (status custom_err)) detail stack
      else if is_api_error err (status custom_err)
      then new_api_grpc_error (to_code (status custom_err)) detail stack
      else if is_bad_request_error err
      then new_bad_request_grpc_error detail stack
      else if is_not_found_error err
      then new_not_found_error_grpc_error detail stack
      else if is_validation_error err
      then new_validation_grpc_error detail stack
      else if is_un_authorized_error err
      then new_un_authorized_error_grpc_error detail stack
      else if is_forbidden_error err
      then new_forbidden_grpc_error detail stack
      else if is_conflict_error err
      then new_conflict_grpc_error detail stack
      else if is_internal_server_error err
      then new_internal_server_grpc_error detail stack
      else if is_custom_error err
      then new_grpc_error (to_code (status custom_err))
          (env.code_text (to_code (status custom_err))) detail stack
      else if is_un_marshaling_error err
      then new_internal_server_grpc_error detail stack
      else if is_marshaling_error err
      then new_internal_server_grpc_error detail stack
      else new_internal_server_grpc_error (error_text err) stack

  -- There is no default case: other errors give nil.
  unfoldable pub parse_other_grpc_error : GoError → Option GrpcErr
  unfolding new_grpc_error new_validation_grpc_error new_not_found_error_grpc_error
      errors_with_stack error_text
  parse_other_grpc_error err =
      let stack = errors_with_stack env err in
      if is_sentinel is_no_rows err
      then some (new_not_found_error_grpc_error (error_text err) stack)
      else if is_sentinel is_deadline_exceeded err
      then some
          (new_grpc_error deadline_exceeded_code (text "Request Timeout") (error_text err) stack)
      else elim (as_validation_errors err) [
        | some message ↦ some (new_validation_grpc_error message stack)
        | none ↦ none
      ]

  unfoldable pub parse_grpc_error : Option GoError → Option GrpcErr
  unfolding get_custom_error parse_custom_grpc_error parse_other_grpc_error
  parse_grpc_error none = none
  parse_grpc_error (some err) = elim (get_custom_error err) [
    | some custom_err ↦ some (parse_custom_grpc_error err custom_err)
    | none ↦ parse_other_grpc_error err
  ]
