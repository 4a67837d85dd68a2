-- ===== src/Endpoints/Replies.antt =====
-- What the endpoints of one product or one order promise to a client (the `handler`s of the endpoints in
-- internal/services), for a binder and a validation that give errors without a custom error in it, and a handler
-- that gives one custom error.
use go_ecommerce_microservic.Common.{
  ℕ, Text, List, ◌≡◌, Option, none, some, Outcome, ok, err, panic, Action,
}
use go_ecommerce_microservic.HttpErrors.Chain.{Kind, GoError, find_as, any_kind}
use go_ecommerce_microservic.HttpErrors.Classes.{http_status, one_custom}
use go_ecommerce_microservic.Endpoints.{
  Response, create_product_endpoint, update_product_endpoint, delete_product_endpoint,
  get_product_by_id_endpoint, get_read_product_by_id_endpoint, create_order_endpoint,
  get_order_by_id_endpoint,
}

-- The endpoints of one product or one order.
pub data Entrance : Type 0 where
  creating_product : Entrance
  updating_product : Entrance
  deleting_product : Entrance
  getting_product_by_id : Entrance
  reading_product_by_id : Entrance
  creating_order : Entrance
  getting_order_by_id : Entrance

module _ {W Q C R : Type 0} where
  unfoldable pub enter :
      Entrance
      → Outcome GoError Q
      → (Q → C)
      → (C → Option GoError)
      → (C → Action W GoError R)
      → Action W GoError (Response R)
  enter creating_product = create_product_endpoint
  enter updating_product = update_product_endpoint
  enter deleting_product = delete_product_endpoint
  enter getting_product_by_id = get_product_by_id_endpoint
  enter reading_product_by_id = get_read_product_by_id_endpoint
  enter creating_order = create_order_endpoint
  enter getting_order_by_id = get_order_by_id_endpoint

-- The status of a success, and whether the result is written.
abbrev pub succeeds : {R : Type 0} → Entrance → R → Response R
succeeds creating_product r = record { status = 201; body = some r }
succeeds updating_product r = record { status = 204; body = none }
succeeds deleting_product r = record { status = 204; body = none }
succeeds getting_product_by_id r = record { status = 200; body = some r }
succeeds reading_product_by_id r = record { status = 200; body = some r }
succeeds creating_order r = record { status = 201; body = some r }
succeeds getting_order_by_id r = record { status = 200; body = some r }

-- An error without a custom error in it, as the binder and the validation give it.
pub record Plain : Type 0 where
  pub error : GoError
  pub plain : find_as any_kind error ≡ none

-- An error of a handler: one custom error, with messages around it.
pub record Fault : Type 0 where
  pub messages : List Text
  pub kind : Kind
  pub code : ℕ
  pub message : Text
  pub inner : Plain

abbrev pub fault_error : Fault → GoError
fault_error f = one_custom f.messages f.kind f.code f.message f.inner.error

abbrev pub plain_error : Option Plain → Option GoError
plain_error none = none
plain_error (some p) = some p.error

abbrev pub errors : {C : Type 0} → (C → Option Plain) → C → Option GoError
errors validate command = plain_error (validate command)

module _ {W Q C R : Type 0} (entrance : Entrance) (make : Q → C) (validate : C → Option Plain)
    (handle : C → Action W Fault R) where
  abbrev pub replied : Outcome Fault R → W → Outcome (Option ℕ) (Response R) × W
  replied (ok r) w = (ok (succeeds entrance r), w)
  replied (err f) w = (err (some (http_status f.kind f.code)), w)
  replied panic w = (panic, w)

  abbrev pub allowed : Option Plain → C → W → Outcome (Option ℕ) (Response R) × W
  allowed none c w = let (r, w') = handle c w in replied r w'
  allowed (some p) c w = (err (some 400), w)

  -- What a client is told: 400 for a request that is not bound or not valid, without a call of the
  -- handler; the status of the table for the error of the handler; and the success.
  abbrev pub reply : Outcome Plain Q → W → Outcome (Option ℕ) (Response R) × W
  reply (ok q) w = allowed (validate (make q)) (make q) w
  reply (err p) w = (err (some 400), w)
  reply panic w = (panic, w)
