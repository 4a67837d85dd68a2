-- ===== src/HttpErrors/Chain.antt =====
-- The errors of internal/pkg/http/httperrors/customerrors/custom_errors.go, as chains that are
-- followed by `Unwrap`. What emperror.dev/errors adds to an error, a message and perhaps a stack
-- trace, is one layer; stack traces are left out. A status is not negative.
use go_ecommerce_microservic.Common.{
  ℕ, Bool, true, false, Text, text, ◌++◌, ◌||◌, Option, none, some, if◌then◌else◌,
}

-- The struct that embeds the `CustomError`; `custom_error` is the `customError` itself.
pub data Kind : Type 0 where
  api application bad_request conflict custom_error domain forbidden internal_server : Kind
  marshaling not_found unauthorized unmarshaling validation : Kind

-- An error that is not nil.
pub data GoError : Type 0 where
  -- `errors.NewPlain`, and errors of other packages
  leaf : Text → GoError
  -- `sql.ErrNoRows` and `context.DeadlineExceeded`
  no_rows deadline_exceeded : GoError
  -- `validator.ValidationErrors`
  validation_errors : Text → GoError
  -- `errors.WithMessage`, `errors.WrapIf`
  annotated : Text → GoError → GoError
  -- a kind, its status and its message
  custom : Kind → ℕ → Text → GoError → GoError
  -- a `customError` without an error in it
  bare : ℕ → Text → GoError

unfoldable pub new_custom_error : Option GoError → ℕ → Text → GoError
new_custom_error none code message = bare code message
new_custom_error (some err) code message = custom Kind.custom_error code message err

-- `Error()`
unfoldable pub error_text : GoError → Text
error_text (leaf message) = message
error_text no_rows = text "sql: no rows in result set"
error_text deadline_exceeded = text "context deadline exceeded"
error_text (validation_errors message) = message
error_text (annotated message err) = message ++ (text ": " ++ error_text err)
error_text (custom kind code message err) = error_text err
error_text (bare code message) = message

abbrev pub is_some {ℓ} : {A : Type ℓ} → Option A → Bool
is_some none = false
is_some (some a) = true

module _ (test : Kind → Bool) where
  -- `errors.As` to an interface of custom errors, which `test` knows by the kind: the first error in
  -- the chain that has it.
  abbrev pub find_as : GoError → Option GoError
  find_as (annotated message err) = find_as err
  find_as (custom kind code message err) =
      let inner = find_as err in if test kind then some (custom kind code message err) else inner
  find_as (bare code message) = if test Kind.custom_error then some (bare code message) else none
  find_as _ = none

  -- `err.(T)`: the error itself has the interface.
  abbrev pub asserts : GoError → Bool
  asserts (custom kind code message err) = test kind
  asserts (bare code message) = test Kind.custom_error
  asserts _ = false

  -- The two tests of an `Is...Error` function.
  abbrev pub is_error : GoError → Bool
  is_error err = asserts err || is_some (find_as err)

-- `Status()` and `Message()` of a custom error
abbrev pub status : GoError → ℕ
status (custom kind code message err) = code
status (bare code message) = code
status _ = 0

abbrev pub any_kind : Kind → Bool
any_kind kind = true

unfoldable pub is_custom_error : GoError → Bool
is_custom_error = is_error any_kind

unfoldable pub get_custom_error : GoError → Option GoError
unfolding is_custom_error
get_custom_error err = if is_custom_error err then find_as any_kind err else none

-- `errors.Is` to one of the sentinel errors
abbrev pub is_sentinel : (GoError → Bool) → GoError → Bool
is_sentinel test (annotated message err) = is_sentinel test err
is_sentinel test (custom kind code message err) = is_sentinel test err
is_sentinel test err = test err

abbrev pub is_no_rows : GoError → Bool
is_no_rows no_rows = true
is_no_rows _ = false

abbrev pub is_deadline_exceeded : GoError → Bool
is_deadline_exceeded deadline_exceeded = true
is_deadline_exceeded _ = false

-- `errors.As` to `validator.ValidationErrors`: its text
abbrev pub as_validation_errors : GoError → Option Text
as_validation_errors (annotated message err) = as_validation_errors err
as_validation_errors (custom kind code message err) = as_validation_errors err
as_validation_errors (validation_errors message) = some message
as_validation_errors _ = none
