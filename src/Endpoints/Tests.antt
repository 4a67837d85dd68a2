-- ===== src/Endpoints/Tests.antt =====
-- Runs of the endpoints with a handler that counts its calls.
use go_ecommerce_microservic.Common.{
  ℕ, zero, suc, text, [], ◌≡◌, refl, Option, none, some, Outcome, ok, err, Action, wrap, map_err,
}
use go_ecommerce_microservic.HttpErrors.Chain.{Kind, leaf}
use go_ecommerce_microservic.HttpErrors.ProblemDetails.{Env}
use go_ecommerce_microservic.Endpoints.{Response}
use go_ecommerce_microservic.Endpoints.Replies.{Entrance, Plain, Fault, enter, errors, fault_error}
use go_ecommerce_microservic.Endpoints.Answers.{told_all, enter-reply}

abbrev env : Env
env = record {
  now = 7;
  verbose = λ err. text "stack";
  status_text = λ n. text "status";
  code_text = λ n. text "code";
}

abbrev missing : Plain
missing = record { error = leaf (text "missing"); plain = refl }

-- The id 0 is not valid.
abbrev checked : ℕ → Option Plain
checked zero = some missing
checked (suc n) = none

-- An order with the id 1 is stored already.
abbrev place : ℕ → Action ℕ Fault ℕ
place (suc zero) calls = (
  err record {
    messages = [];
    kind = Kind.conflict;
    code = 409;
    message = text "duplicate";
    inner = missing;
  },
  suc calls,
)
place id calls = (ok id, suc calls)

abbrev run : ℕ → Outcome (Option ℕ) (Response ℕ) × ℕ
run id = told_all env (
    enter Entrance.creating_order (map_err (λ (p : Plain). p.error) (ok id)) (λ id. id)
      (errors checked) (λ c. wrap fault_error (place c)) 0)

enter-reply_example : run 1 ≡ (err (some 409), 1)
enter-reply_example = enter-reply env Entrance.creating_order (λ id. id) checked place (ok 1) 0

enter-reply_invalid_test : run 0 ≡ (err (some 400), 0)
enter-reply_invalid_test = enter-reply env Entrance.creating_order (λ id. id) checked place (ok 0) 0

enter-reply_ok_test : run 5 ≡ (ok record { status = 201; body = some 5 }, 1)
enter-reply_ok_test = enter-reply env Entrance.creating_order (λ id. id) checked place (ok 5) 0
