-- ===== src/HttpErrors/Resolving.antt =====
-- When `ResolveProblemDetail` of problem_details.go ends.
use go_ecommerce_microservic.Common.{
  ℕ, zero, suc, ◌≡◌, refl, ap, Outcome, ok, panic, Bool, true, false, ◌∙◌, Option, none, some,
  Bool-cases, inl, inr, if◌then◌else◌,
}
use go_ecommerce_microservic.HttpErrors.ProblemDetails.{
  ProblemDetail, Registry, traces, unwrapped, resolve, problem_of, problem_for,
  resolve_problem_detail,
}

module _ {E T : Type 0} (is_stack_tracer : E → Bool) (unwrap : E → Option E) (reflect_type : E → T)
    (registry : Registry is_stack_tracer unwrap reflect_type) (err : Option E) where
  abbrev tracing : Option E → Bool
  tracing = traces is_stack_tracer unwrap reflect_type

  abbrev wrapped_error : Option E → Option E
  wrapped_error = unwrapped is_stack_tracer unwrap reflect_type

  -- What the registry has for an error; the lookup for nil panics.
  abbrev found : Option E → Outcome {0, 0} ⊥ (Option ProblemDetail)
  found none = panic
  found (some e) =
      ok (problem_of is_stack_tracer unwrap reflect_type (registry (reflect_type e)) (some e))

  found-problem_for :
      (e : Option E) → problem_for is_stack_tracer unwrap reflect_type registry e ≡ found e
  found-problem_for none = refl
  found-problem_for (some e) = refl

  abbrev resolved : ℕ → Option (Outcome {0, 0} ⊥ (Option ProblemDetail))
  resolved fuel = resolve_problem_detail is_stack_tracer unwrap reflect_type registry fuel err

  abbrev loop : ℕ → Option E → Option (Option E)
  loop fuel = resolve is_stack_tracer unwrap reflect_type fuel err

  loop-endless :
      (fuel : ℕ) → tracing (wrapped_error err) ≡ true → loop fuel (wrapped_error err) ≡ none
  loop-endless zero h = refl
  loop-endless (suc fuel) h = rw h (loop-endless fuel h)

  loop-ends :
      (fuel : ℕ)
      → loop (suc (suc fuel)) err ≡ (
          if tracing err
          then (if tracing (wrapped_error err) then none else some (wrapped_error err))
          else some err)
  loop-ends fuel = elim (Bool-cases (tracing err)) [
    | inl traced ↦ elim (Bool-cases (tracing (wrapped_error err))) [
      | inl again ↦ rw traced (rw again (loop-endless fuel again))
      | inr plain ↦ rw (traced, plain)
    ]
    | inr plain ↦ rw plain
  ]

  abbrev answer : Option (Option E) → Option (Outcome {0, 0} ⊥ (Option ProblemDetail))
  answer none = none
  answer (some e) = some (found e)

  resolved-loop : (fuel : ℕ) (r : Option (Option E)) → loop fuel err ≡ r → resolved fuel ≡ answer r
  unfolding resolve_problem_detail
  resolved-loop fuel none h = rw (resolve_problem_detail, h)
  resolved-loop fuel (some e) h = rw (resolve_problem_detail, h) (ap some (found-problem_for e))

  answer-if :
      (a b : Bool) (e e' : Option E)
      → answer (if a then (if b then none else some e) else some e')
        ≡ (if a then (if b then none else some (found e)) else some (found e'))
  answer-if true true e e' = refl
  answer-if true false e e' = refl
  answer-if false b e e' = refl

  -- With a fuel of two or more, the lookup asks the registry for the error itself, when that carries
  -- no stack trace, and otherwise for the error it wraps, when this carries none; when both carry a
  -- stack trace, it does not end, whatever the fuel. Where that error is nil, the lookup panics.
  pub resolve_problem_detail-ends :
      (fuel : ℕ)
      → resolved (suc (suc fuel)) ≡ (
          if tracing err
          then (if tracing (wrapped_error err) then none else some (found (wrapped_error err)))
          else some (found err))
  resolve_problem_detail-ends fuel =
      resolved-loop (suc (suc fuel)) _ (loop-ends fuel)
      ∙ answer-if (tracing err) (tracing (wrapped_error err)) (wrapped_error err) err
