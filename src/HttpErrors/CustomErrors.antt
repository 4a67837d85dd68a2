-- ===== src/HttpErrors/CustomErrors.antt =====
-- internal/pkg/http/httperrors/customerrors: the constructors of the custom errors, and the tests for
-- them. A `...Wrap` constructor of nil is the constructor without an error.
use go_ecommerce_microservic.Common.{
  ℕ, Bool, true, false, Text, text, ◌||◌, ◌==◌, Option, none, some,
}
use go_ecommerce_microservic.HttpErrors.Chain.{
  Kind, GoError, leaf, annotated, custom, find_as, asserts, is_error, status,
}

-- The layers that a constructor puts below its custom error.
abbrev pub fresh : Text → Text → GoError
fresh title message = annotated message (leaf title)

abbrev pub wrapped : Text → Text → GoError → GoError
wrapped title message err = annotated message (annotated title err)

-- Which kinds have the methods of an interface; a validation error is a bad request too, and the two
-- marshaling errors are internal server errors too.
abbrev pub is_api_kind : Kind → Bool
is_api_kind Kind.api = true
is_api_kind _ = false

abbrev pub is_application_kind : Kind → Bool
is_application_kind Kind.application = true
is_application_kind _ = false

abbrev pub is_domain_kind : Kind → Bool
is_domain_kind Kind.domain = true
is_domain_kind _ = false

abbrev pub is_bad_request_kind : Kind → Bool
is_bad_request_kind Kind.bad_request = true
is_bad_request_kind Kind.validation = true
is_bad_request_kind _ = false

abbrev pub is_conflict_kind : Kind → Bool
is_conflict_kind Kind.conflict = true
is_conflict_kind _ = false

abbrev pub is_forbidden_kind : Kind → Bool
is_forbidden_kind Kind.forbidden = true
is_forbidden_kind _ = false

abbrev pub is_internal_server_kind : Kind → Bool
is_internal_server_kind Kind.internal_server = true
is_internal_server_kind Kind.marshaling = true
is_internal_server_kind Kind.unmarshaling = true
is_internal_server_kind _ = false

abbrev pub is_marshaling_kind : Kind → Bool
is_marshaling_kind Kind.marshaling = true
is_marshaling_kind _ = false

abbrev pub is_not_found_kind : Kind → Bool
is_not_found_kind Kind.not_found = true
is_not_found_kind _ = false

abbrev pub is_unauthorized_kind : Kind → Bool
is_unauthorized_kind Kind.unauthorized = true
is_unauthorized_kind _ = false

abbrev pub is_unmarshaling_kind : Kind → Bool
is_unmarshaling_kind Kind.unmarshaling = true
is_unmarshaling_kind _ = false

abbrev pub is_validation_kind : Kind → Bool
is_validation_kind Kind.validation = true
is_validation_kind _ = false

-- The test of an `Is...Error` function that takes a code: only a nested error's status is compared.
abbrev pub has_code : ℕ → Option GoError → Bool
has_code code none = false
has_code code (some err) = status err == code

abbrev pub is_error_with : (Kind → Bool) → GoError → ℕ → Bool
is_error_with test err code = asserts test err || has_code code (find_as test err)

unfoldable pub new_bad_request_error : Text → GoError
new_bad_request_error message =
    custom Kind.bad_request 400 message (fresh (text "bad request error") message)

unfoldable pub new_bad_request_error_wrap : Option GoError → Text → GoError
unfolding new_bad_request_error
new_bad_request_error_wrap none message = new_bad_request_error message
new_bad_request_error_wrap (some err) message =
    custom Kind.bad_request 400 message (wrapped (text "bad request error") message err)

unfoldable pub is_bad_request_error : GoError → Bool
is_bad_request_error = is_error is_bad_request_kind

unfoldable pub new_conflict_error : Text → GoError
new_conflict_error message =
    custom Kind.conflict 409 message (fresh (text "conflict error") message)

unfoldable pub new_conflict_error_wrap : Option GoError → Text → GoError
unfolding new_conflict_error
new_conflict_error_wrap none message = new_conflict_error message
new_conflict_error_wrap (some err) message =
    custom Kind.conflict 409 message (wrapped (text "conflict error") message err)

unfoldable pub is_conflict_error : GoError → Bool
is_conflict_error = is_error is_conflict_kind

unfoldable pub new_forbidden_error : Text → GoError
new_forbidden_error message =
    custom Kind.forbidden 403 message (fresh (text "forbidden error") message)

unfoldable pub new_forbidden_error_wrap : Option GoError → Text → GoError
unfolding new_forbidden_error
new_forbidden_error_wrap none message = new_forbidden_error message
new_forbidden_error_wrap (some err) message =
    custom Kind.forbidden 403 message (wrapped (text "forbidden error") message err)

unfoldable pub is_forbidden_error : GoError → Bool
is_forbidden_error = is_error is_forbidden_kind

unfoldable pub new_internal_server_error : Text → GoError
new_internal_server_error message =
    custom Kind.internal_server 500 message (fresh (text "internal server error") message)

unfoldable pub new_internal_server_error_wrap : Option GoError → Text → GoError
unfolding new_internal_server_error
new_internal_server_error_wrap none message = new_internal_server_error message
new_internal_server_error_wrap (some err) message =
    custom Kind.internal_server 500 message (wrapped (text "internal server error") message err)

unfoldable pub is_internal_server_error : GoError → Bool
is_internal_server_error = is_error is_internal_server_kind

unfoldable pub new_marshaling_error : Text → GoError
new_marshaling_error message =
    custom Kind.marshaling 500 message (fresh (text "marshaling error") message)

unfoldable pub new_marshaling_error_wrap : Option GoError → Text → GoError
unfolding new_marshaling_error
new_marshaling_error_wrap none message = new_marshaling_error message
new_marshaling_error_wrap (some err) message =
    custom Kind.marshaling 500 message (wrapped (text "marshaling error") message err)

unfoldable pub is_marshaling_error : GoError → Bool
is_marshaling_error = is_error is_marshaling_kind

unfoldable pub new_not_found_error : Text → GoError
new_not_found_error message =
    custom Kind.not_found 400 message (fresh (text "not found error") message)

unfoldable pub new_not_found_error_wrap : Option GoError → Text → GoError
unfolding new_not_found_error
new_not_found_error_wrap none message = new_not_found_error message
new_not_found_error_wrap (some err) message =
    custom Kind.not_found 404 message (wrapped (text "not found error") message err)

unfoldable pub is_not_found_error : GoError → Bool
is_not_found_error = is_error is_not_found_kind

unfoldable pub new_un_authorized_error : Text → GoError
new_un_authorized_error message =
    custom Kind.unauthorized 401 message (fresh (text "unauthorized error") message)

unfoldable pub new_un_authorized_error_wrap : Option GoError → Text → GoError
unfolding new_un_authorized_error
new_un_authorized_error_wrap none message = new_un_authorized_error message
new_un_authorized_error_wrap (some err) message =
    custom Kind.unauthorized 401 message (wrapped (text "unauthorized error") message err)

unfoldable pub is_un_authorized_error : GoError → Bool
is_un_authorized_error = is_error is_unauthorized_kind

unfoldable pub new_un_marshaling_error : Text → GoError
new_un_marshaling_error message =
    custom Kind.unmarshaling 500 message (fresh (text "unMarshaling error") message)

unfoldable pub new_un_marshaling_error_wrap : Option GoError → Text → GoError
unfolding new_un_marshaling_error
new_un_marshaling_error_wrap none message = new_un_marshaling_error message
new_un_marshaling_error_wrap (some err) message =
    custom Kind.unmarshaling 500 message (wrapped (text "unMarshaling error") message err)

unfoldable pub is_un_marshaling_error : GoError → Bool
is_un_marshaling_error = is_error is_unmarshaling_kind

unfoldable pub new_validation_error : Text → GoError
new_validation_error message =
    custom Kind.validation 400 message (fresh (text "validation error") message)

unfoldable pub new_validation_error_wrap : Option GoError → Text → GoError
unfolding new_validation_error
new_validation_error_wrap none message = new_validation_error message
new_validation_error_wrap (some err) message =
    custom Kind.validation 400 message (wrapped (text "validation error") message err)

unfoldable pub is_validation_error : GoError → Bool
is_validation_error = is_error is_validation_kind

unfoldable pub new_domain_error_with_code : Text → ℕ → GoError
new_domain_error_with_code message code =
    custom Kind.domain code message (fresh (text "domain error") message)

unfoldable pub new_domain_error : Text → GoError
unfolding new_domain_error_with_code
new_domain_error message = new_domain_error_with_code message 400

unfoldable pub new_domain_error_with_code_wrap : Option GoError → ℕ → Text → GoError
unfolding new_domain_error_with_code
new_domain_error_with_code_wrap none code message = new_domain_error_with_code message code
new_domain_error_with_code_wrap (some err) code message =
    custom Kind.domain code message (wrapped (text "domain error") message err)

unfoldable pub new_domain_error_wrap : Option GoError → Text → GoError
unfolding new_domain_error_with_code_wrap
new_domain_error_wrap err message = new_domain_error_with_code_wrap err 400 message

unfoldable pub is_domain_error : GoError → ℕ → Bool
is_domain_error = is_error_with is_domain_kind

unfoldable pub new_application_error_with_code : Text → ℕ → GoError
new_application_error_with_code message code =
    custom Kind.application code message (fresh (text "application error") message)

unfoldable pub new_application_error : Text → GoError
unfolding new_application_error_with_code
new_application_error message = new_application_error_with_code message 500

unfoldable pub new_application_error_wrap_with_code : Option GoError → ℕ → Text → GoError
unfolding new_application_error_with_code
new_application_error_wrap_with_code none code message =
    new_application_error_with_code message code
new_application_error_wrap_with_code (some err) code message =
    custom Kind.application code message (wrapped (text "application error") message err)

unfoldable pub new_application_error_wrap : Option GoError → Text → GoError
unfolding new_application_error_wrap_with_code
new_application_error_wrap err message = new_application_error_wrap_with_code err 500 message

unfoldable pub is_application_error : GoError → ℕ → Bool
is_application_error = is_error_with is_application_kind

unfoldable pub new_api_error : Text → ℕ → GoError
new_api_error message code = custom Kind.api code message (fresh (text "api error") message)

unfoldable pub new_api_error_wrap : Option GoError → ℕ → Text → GoError
unfolding new_api_error
new_api_error_wrap none code message = new_api_error message code
new_api_error_wrap (some err) code message =
    custom Kind.api code message (wrapped (text "api error") message err)

unfoldable pub is_api_error : GoError → ℕ → Bool
is_api_error = is_error_with is_api_kind
