-- ===== src/Endpoints/Answers.antt =====
-- What a client of the endpoints in internal/services is told, through the parser of internal/pkg/http/httperrors/
-- problemdetails/problem_detail_parser.go.
use go_ecommerce_microservic.Common.{
  ℕ, Text, text, [], ◌∷◌, ◌≡◌, refl, ap, Option, none, some, Outcome, ok, err, panic, Action, pure,
  wrap, map_err, continue,
}
use go_ecommerce_microservic.HttpErrors.Chain.{Kind, GoError, annotated}
use go_ecommerce_microservic.HttpErrors.CustomErrors.{
  new_bad_request_error_wrap, new_validation_error_wrap, wrapped,
}
use go_ecommerce_microservic.HttpErrors.ProblemDetails.{Env}
use go_ecommerce_microservic.HttpErrors.Classes.{http_status, parse_error-one_custom}
use go_ecommerce_microservic.Catalogs.Answers.{answered_status, first_of}
use go_ecommerce_microservic.Endpoints.{
  bad_request, validation_failed, as_it_is, unless, handled, create_product_endpoint,
  update_product_endpoint, delete_product_endpoint, get_product_by_id_endpoint,
  get_read_product_by_id_endpoint, create_order_endpoint, get_order_by_id_endpoint,
}
use go_ecommerce_microservic.Endpoints.Replies.{
  Entrance, enter, succeeds, Plain, Fault, fault_error, plain_error, errors, replied, allowed,
  reply,
}

-- An error answered over HTTP: the status.
module _ {W R : Type 0} where
  abbrev pub told_all : Env → Outcome GoError R × W → Outcome (Option ℕ) R × W
  told_all env (r, w) = (map_err (answered_status env) r, w)

bad_request-answered :
    (env : Env) (p : Plain) (message : Text)
    → answered_status env (bad_request message p.error) ≡ some 400
unfolding new_bad_request_error_wrap
bad_request-answered env p message = ap first_of (
    parse_error-one_custom env [] Kind.bad_request 400 message
      (wrapped (text "bad request error") message p.error) p.plain)

validation-answered :
    (env : Env) (p : Plain) (message : Text)
    → answered_status env (validation_failed message p.error) ≡ some 400
unfolding new_validation_error_wrap
validation-answered env p message = ap first_of (
    parse_error-one_custom env [] Kind.validation 400 message
      (wrapped (text "validation error") message p.error) p.plain)

fault-answered :
    (env : Env) (f : Fault) (sending : Text)
    → answered_status env (annotated sending (fault_error f)) ≡ some (http_status f.kind f.code)
fault-answered env f sending = ap first_of (
    parse_error-one_custom env (sending ∷ f.messages) f.kind f.code f.message f.inner.error
      f.inner.plain)

module _ {W Q C R : Type 0} (env : Env) (entrance : Entrance) (make : Q → C)
    (validate : C → Option Plain) (handle : C → Action W Fault R) where
  abbrev send : C → Action W GoError R
  send c = wrap fault_error (handle c)

  answer-replied :
      (sending : Text) (r : Outcome Fault R) (w : W)
      → told_all env (
          continue
            (map_err (annotated sending) (map_err fault_error r))
            (λ result. pure (succeeds entrance result))
            w)
        ≡ replied entrance make validate handle r w
  answer-replied sending (ok r) w = refl
  answer-replied sending (err f) w = ap (λ a. (err a, w)) (fault-answered env f sending)
  answer-replied sending panic w = refl

  -- The two ways of refusing an invalid command.
  refused-allowed :
      (message sending : Text) (checked : Option Plain) (c : C) (w : W)
      → told_all env (
          handled
            (unless (plain_error checked) c)
            (validation_failed message)
            send
            sending
            (succeeds entrance)
            w)
        ≡ allowed entrance make validate handle checked c w
  refused-allowed message sending none c w = answer-replied sending _ _
  refused-allowed message sending (some p) c w =
      ap (λ a. (err a, w)) (validation-answered env p message)

  wrapped-allowed :
      (message sending : Text) (checked : Option Plain) (c : C) (w : W)
      → told_all env (
          handled
            (map_err (validation_failed message) (unless (plain_error checked) c))
            as_it_is
            send
            sending
            (succeeds entrance)
            w)
        ≡ allowed entrance make validate handle checked c w
  wrapped-allowed message sending none c w = answer-replied sending _ _
  wrapped-allowed message sending (some p) c w =
      ap (λ a. (err a, w)) (validation-answered env p message)

refused-request :
    {W R : Type 0} (env : Env) (message : Text) (p : Plain) (w : W)
    → told_all {W = W} {R = R} env (err (bad_request message p.error), w) ≡ (err (some 400), w)
refused-request env message p w = ap (λ a. (err a, w)) (bad_request-answered env p message)

enter-bound :
    {W Q C R : Type 0} (env : Env) (entrance : Entrance) (make : Q → C)
    (validate : C → Option Plain) (handle : C → Action W Fault R) (q : Q) (w : W)
    → told_all env
        (enter entrance (ok q) make (errors validate) (λ c. wrap fault_error (handle c)) w)
      ≡ allowed entrance make validate handle (validate (make q)) (make q) w
unfolding enter create_product_endpoint update_product_endpoint delete_product_endpoint
    get_product_by_id_endpoint get_read_product_by_id_endpoint create_order_endpoint
    get_order_by_id_endpoint
enter-bound env Entrance.creating_product make validate handle q w =
    wrapped-allowed env Entrance.creating_product make validate handle _ _ _ (make q) w
enter-bound env Entrance.updating_product make validate handle q w =
    wrapped-allowed env Entrance.updating_product make validate handle _ _ _ (make q) w
enter-bound env Entrance.deleting_product make validate handle q w =
    wrapped-allowed env Entrance.deleting_product make validate handle _ _ _ (make q) w
enter-bound env Entrance.getting_product_by_id make validate handle q w =
    wrapped-allowed env Entrance.getting_product_by_id make validate handle _ _ _ (make q) w
enter-bound env Entrance.reading_product_by_id make validate handle q w =
    refused-allowed env Entrance.reading_product_by_id make validate handle _ _ _ (make q) w
enter-bound env Entrance.creating_order make validate handle q w =
    refused-allowed env Entrance.creating_order make validate handle _ _ _ (make q) w
enter-bound env Entrance.getting_order_by_id make validate handle q w =
    refused-allowed env Entrance.getting_order_by_id make validate handle _ _ _ (make q) w

enter-unbound :
    {W Q C R : Type 0} (env : Env) (entrance : Entrance) (make : Q → C)
    (validate : C → Option Plain) (handle : C → Action W Fault R) (p : Plain) (w : W)
    → told_all env
        (enter entrance (err p.error) make (errors validate) (λ c. wrap fault_error (handle c)) w)
      ≡ (err (some 400), w)
unfolding enter create_product_endpoint update_product_endpoint delete_product_endpoint
    get_product_by_id_endpoint get_read_product_by_id_endpoint create_order_endpoint
    get_order_by_id_endpoint
enter-unbound env Entrance.creating_product make validate handle p w = refused-request env _ p w
enter-unbound env Entrance.updating_product make validate handle p w = refused-request env _ p w
enter-unbound env Entrance.deleting_product make validate handle p w = refused-request env _ p w
enter-unbound env Entrance.getting_product_by_id make validate handle p w =
    refused-request env _ p w
enter-unbound env Entrance.reading_product_by_id make validate handle p w =
    refused-request env _ p w
enter-unbound env Entrance.creating_order make validate handle p w = refused-request env _ p w
enter-unbound env Entrance.getting_order_by_id make validate handle p w = refused-request env _ p w

-- An endpoint of one product or one order answers a request that cannot be bound and a command
-- or a query that is not valid with 400, without a call of the handler. Otherwise it answers the
-- handler's error, one custom error with messages around it, with the status of that error's kind and
-- code, and a result with the endpoint's own status. The errors of the binding and the validation
-- hold no custom error.
pub enter-reply :
    {W Q C R : Type 0} (env : Env) (entrance : Entrance) (make : Q → C)
    (validate : C → Option Plain) (handle : C → Action W Fault R) (request : Outcome Plain Q)
    (w : W)
    → told_all env (
        enter entrance
          (map_err (λ p. p.error) request)
          make
          (errors validate)
          (λ c. wrap fault_error (handle c))
          w)
      ≡ reply entrance make validate handle request w
unfolding enter create_product_endpoint update_product_endpoint delete_product_endpoint
    get_product_by_id_endpoint get_read_product_by_id_endpoint create_order_endpoint
    get_order_by_id_endpoint
enter-reply env entrance make validate handle (ok q) w =
    enter-bound env entrance make validate handle q w
enter-reply env entrance make validate handle (err p) w =
    enter-unbound env entrance make validate handle p w
enter-reply env Entrance.creating_product make validate handle panic w = refl
enter-reply env Entrance.updating_product make validate handle panic w = refl
enter-reply env Entrance.deleting_product make validate handle panic w = refl
enter-reply env Entrance.getting_product_by_id make validate handle panic w = refl
enter-reply env Entrance.reading_product_by_id make validate handle panic w = refl
enter-reply env Entrance.creating_order make validate handle panic w = refl
enter-reply env Entrance.getting_order_by_id make validate handle panic w = refl
