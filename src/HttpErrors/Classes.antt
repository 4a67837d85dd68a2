-- ===== src/HttpErrors/Classes.antt =====
-- Which status an error with one custom error in it is reported with (problem_detail_parser.go,
-- grpc_error_parser.go).
use go_ecommerce_microservic.Common.{
  ℕ, ◌⊎◌, Bool, true, false, Text, List, [], ◌∷◌, ◌≡◌, refl, ap, Option, none, some, ◌||◌,
  if◌then◌else◌, ==-refl, inl, inr,
}
use go_ecommerce_microservic.HttpErrors.Chain.{
  Kind, GoError, leaf, no_rows, deadline_exceeded, validation_errors, annotated, custom, bare,
  find_as, asserts, is_error, is_some, any_kind, is_custom_error, get_custom_error, error_text,
}
use go_ecommerce_microservic.HttpErrors.CustomErrors.{
  has_code, is_error_with, is_api_kind, is_application_kind, is_domain_kind, is_bad_request_kind,
  is_not_found_kind, is_validation_kind, is_unauthorized_kind, is_forbidden_kind, is_conflict_kind,
  is_internal_server_kind,
}
use go_ecommerce_microservic.HttpErrors.ProblemDetails.{
  Env, ProblemDetail, parse_error, parse_custom_error, errors_with_stack, new_problem_detail,
  new_domain_problem_detail, new_application_problem_detail, new_api_problem_detail,
  new_bad_request_problem_detail, new_not_found_error_problem_detail,
  new_un_authorized_error_problem_detail, new_forbidden_problem_detail, new_conflict_problem_detail,
  new_internal_server_problem_detail, new_problem_detail_from_code_and_detail,
  new_validation_problem_detail,
}

-- What a client is to be told of a kind of error with a code, over HTTP.
abbrev pub http_status : Kind → ℕ → ℕ
http_status Kind.bad_request code = 400
http_status Kind.validation code = 400
http_status Kind.unauthorized code = 401
http_status Kind.forbidden code = 403
http_status Kind.not_found code = 404
http_status Kind.conflict code = 409
http_status Kind.internal_server code = 500
http_status Kind.marshaling code = 500
http_status Kind.unmarshaling code = 500
http_status _ code = code

abbrev pub reported : ProblemDetail → ℕ × Text
reported p = (p.status, p.detail)

abbrev pub map_reported : Option ProblemDetail → Option (ℕ × Text)
map_reported none = none
map_reported (some p) = some (reported p)

-- Messages put around an error.
abbrev pub annotate : List Text → GoError → GoError
annotate [] err = err
annotate (message ∷ messages) err = annotated message (annotate messages err)

pub find_as-none :
    (test : Kind → Bool) (err : GoError) → find_as any_kind err ≡ none → find_as test err ≡ none
find_as-none test (leaf message) h = refl
find_as-none test no_rows h = refl
find_as-none test deadline_exceeded h = refl
find_as-none test (validation_errors message) h = refl
find_as-none test (annotated message err) h = find_as-none test err h
find_as-none test (custom kind code message err) h = cc
find_as-none test (bare code message) h = cc

pub find_as-annotate :
    (test : Kind → Bool) (messages : List Text) (err : GoError)
    → find_as test (annotate messages err) ≡ find_as test err
find_as-annotate test [] err = refl
find_as-annotate test (message ∷ messages) err = find_as-annotate test messages err

asserts-annotate :
    (test : Kind → Bool) (messages : List Text) (kind : Kind) (code : ℕ) (message : Text)
    (err : GoError)
    → (asserts test (annotate messages (custom kind code message err)) ≡ false)
      ⊎ (asserts test (annotate messages (custom kind code message err)) ≡ test kind)
asserts-annotate test [] kind code message err = inr refl
asserts-annotate test (m ∷ messages) kind code message err = inl refl

or_tests :
    (a t : Bool) (err : GoError)
    → (a ≡ false) ⊎ (a ≡ t)
    → (a || is_some (if t then some err else none)) ≡ t
or_tests true true err h = refl
or_tests true false err (inl h) = cc
or_tests true false err (inr h) = cc
or_tests false true err h = refl
or_tests false false err h = refl

or_codes :
    (a t : Bool) (kind : Kind) (code : ℕ) (message : Text) (err : GoError)
    → (a ≡ false) ⊎ (a ≡ t)
    → (a || has_code code (if t then some (custom kind code message err) else none)) ≡ t
or_codes true true kind code message err h = refl
or_codes true false kind code message err (inl h) = cc
or_codes true false kind code message err (inr h) = cc
or_codes false true kind code message err h = ==-refl code
or_codes false false kind code message err h = refl

-- An error of the kind, with messages around it.
abbrev pub one_custom : List Text → Kind → ℕ → Text → GoError → GoError
one_custom messages kind code message err = annotate messages (custom kind code message err)

-- The tests of an error with one custom error in it are those of its kind.
module _ (messages : List Text) (kind : Kind) (code : ℕ) (message : Text) (err : GoError)
    (plain : find_as any_kind err ≡ none) where
  find_as-one :
      (test : Kind → Bool)
      → find_as test (one_custom messages kind code message err)
        ≡ (if test kind then some (custom kind code message err) else none)
  find_as-one test =
      rw
        (find_as-annotate test messages (custom kind code message err), find_as-none test err plain)

  asserts-one :
      (test : Kind → Bool)
      → (asserts test (one_custom messages kind code message err) ≡ false)
        ⊎ (asserts test (one_custom messages kind code message err) ≡ test kind)
  asserts-one test = asserts-annotate test messages kind code message err

  is_error-one :
      (test : Kind → Bool) → is_error test (one_custom messages kind code message err) ≡ test kind
  is_error-one test = rw (
    find_as-one test,
    or_tests (asserts test (one_custom messages kind code message err)) (test kind)
        (custom kind code message err) (asserts-one test),
  )

  is_error_with-one :
      (test : Kind → Bool)
      → is_error_with test (one_custom messages kind code message err) code ≡ test kind
  is_error_with-one test = rw (
    find_as-one test,
    or_codes (asserts test (one_custom messages kind code message err)) (test kind) kind code
        message err (asserts-one test),
  )

  get_custom_error-one :
      get_custom_error (one_custom messages kind code message err)
      ≡ some (custom kind code message err)
  unfolding get_custom_error is_custom_error
  get_custom_error-one = rw (is_error-one any_kind, find_as-one any_kind)

parse_error-custom :
    (env : Env) (err custom_err : GoError)
    → get_custom_error err ≡ some custom_err
    → parse_error env (some err) ≡ some (parse_custom_error env err custom_err)
unfolding parse_error
parse_error-custom env err custom_err h = rw (parse_error, h)

-- The switch on a custom error whose kind is the only one in the chain.
abbrev switch : Env → Kind → ℕ → Text → Text → ProblemDetail
switch env kind code detail stack =
    if is_domain_kind kind
    then new_domain_problem_detail env code detail stack
    else if is_application_kind kind
    then new_application_problem_detail env code detail stack
    else if is_api_kind kind
    then new_api_problem_detail env code detail stack
    else if is_bad_request_kind kind
    then new_bad_request_problem_detail env detail stack
    else if is_not_found_kind kind
    then new_not_found_error_problem_detail env detail stack
    else if is_validation_kind kind
    then new_validation_problem_detail env detail stack
    else if is_unauthorized_kind kind
    then new_un_authorized_error_problem_detail env detail stack
    else if is_forbidden_kind kind
    then new_forbidden_problem_detail env detail stack
    else if is_conflict_kind kind
    then new_conflict_problem_detail env detail stack
    else if is_internal_server_kind kind
    then new_internal_server_problem_detail env detail stack
    else new_problem_detail_from_code_and_detail env code detail stack

switch-reported :
    (env : Env) (kind : Kind) (code : ℕ) (detail stack : Text)
    → reported (switch env kind code detail stack) ≡ (http_status kind code, detail)
unfolding new_domain_problem_detail new_application_problem_detail new_api_problem_detail
    new_bad_request_problem_detail new_not_found_error_problem_detail
    new_un_authorized_error_problem_detail new_forbidden_problem_detail new_conflict_problem_detail
    new_internal_server_problem_detail new_problem_detail_from_code_and_detail
    new_validation_problem_detail new_problem_detail
switch-reported env Kind.api code detail stack = refl
switch-reported env Kind.application code detail stack = refl
switch-reported env Kind.bad_request code detail stack = refl
switch-reported env Kind.conflict code detail stack = refl
switch-reported env Kind.custom_error code detail stack = refl
switch-reported env Kind.domain code detail stack = refl
switch-reported env Kind.forbidden code detail stack = refl
switch-reported env Kind.internal_server code detail stack = refl
switch-reported env Kind.marshaling code detail stack = refl
switch-reported env Kind.not_found code detail stack = refl
switch-reported env Kind.unauthorized code detail stack = refl
switch-reported env Kind.unmarshaling code detail stack = refl
switch-reported env Kind.validation code detail stack = refl

parse_custom_error-one :
    (env : Env) (messages : List Text) (kind : Kind) (code : ℕ) (message : Text) (err : GoError)
    → find_as any_kind err ≡ none
    → parse_custom_error env
        (one_custom messages kind code message err)
        (custom kind code message err)
      ≡ switch env kind code
          (error_text err)
          (errors_with_stack env (one_custom messages kind code message err))
unfolding parse_custom_error error_text
parse_custom_error-one env messages kind code message err plain =
    let tests = is_error-one messages kind code message err plain in
    let code_tests = is_error_with-one messages kind code message err plain in
    rw (
      code_tests is_domain_kind,
      code_tests is_application_kind,
      code_tests is_api_kind,
      tests is_bad_request_kind,
      tests is_not_found_kind,
      tests is_validation_kind,
      tests is_unauthorized_kind,
      tests is_forbidden_kind,
      tests is_conflict_kind,
      tests is_internal_server_kind,
      tests any_kind,
    )

-- An error with exactly one custom error in it, with any messages around it and any other error
-- below it, is answered over HTTP with the status that the table gives for its kind and code, and with
-- the text of the error below as the detail.
pub parse_error-one_custom :
    (env : Env) (messages : List Text) (kind : Kind) (code : ℕ) (message : Text) (err : GoError)
    → find_as any_kind err ≡ none
    → map_reported (parse_error env (some (one_custom messages kind code message err)))
      ≡ some (http_status kind code, error_text err)
parse_error-one_custom env messages kind code message err plain =
    rw
      (
        parse_error-custom env _ _ (get_custom_error-one messages kind code message err plain),
        parse_custom_error-one env messages kind code message err plain,
      )
      (ap some (switch-reported env kind code _ _))
