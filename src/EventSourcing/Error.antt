-- ===== src/EventSourcing/Error.antt =====
-- The errors of the event store's packages (internal/pkg/es/errors, internal/pkg/eventstroredb/errors,
-- internal/pkg/http/httperrors/customerrors): a cause under layers of wrappers, outermost first.
-- Message texts are left out.
use go_ecommerce_microservic.Common.{ℕ, Bool, true, false, ◌||◌, List, [], ◌∷◌}

-- The sentinel errors of the EventStoreDB client that the code tells apart, and the others.
pub data ClientError : Type 0 where
  stream_not_found wrong_expected_stream_revision end_of_file : ClientError
  failure : ℕ → ClientError

pub data Cause : Type 0 where
  -- the wrapped error was nil
  nothing : Cause
  event_already_exists invalid_event_type map_not_exist : Cause
  order_shop_items_required invalid_delivery_address invalid_email_address : Cause
  created_at_is_zero delivered_time_is_zero : Cause
  client : ClientError → Cause
  -- an error that a serializer, a handler or a projection gave
  external : ℕ → Cause

pub data Layer : Type 0 where
  message read_stream append_to_stream truncate_stream delete_stream : Layer
  stream_not_found_layer aggregate_not_found domain application : Layer

pub record Error : Type 0 where
  pub layers : List Layer
  pub cause : Cause

abbrev pub plain : Cause → Error
plain c = record { layers = []; cause = c }

abbrev pub with_layer : Layer → Error → Error
with_layer l e = record e { layers = l ∷ e.layers }

-- `errors.Is(err, esdb.ErrStreamNotFound)`
abbrev pub is_stream_not_found : Cause → Bool
is_stream_not_found (client stream_not_found) = true
is_stream_not_found _ = false

-- `errors.Is(err, esdb.ErrWrongExpectedStreamRevision)`
abbrev pub is_wrong_expected_stream_revision : Cause → Bool
is_wrong_expected_stream_revision (client wrong_expected_stream_revision) = true
is_wrong_expected_stream_revision _ = false

-- `errors.Is(err, io.EOF)`
abbrev pub is_end_of_file : Cause → Bool
is_end_of_file (client end_of_file) = true
is_end_of_file _ = false

abbrev is_aggregate_not_found_layer : Layer → Bool
is_aggregate_not_found_layer aggregate_not_found = true
is_aggregate_not_found_layer _ = false

-- `IsAggregateNotFoundError`: some layer of the chain is an `aggregateNotFoundError`.
abbrev any_aggregate_not_found : List Layer → Bool
any_aggregate_not_found [] = false
any_aggregate_not_found (l ∷ ls) = is_aggregate_not_found_layer l || any_aggregate_not_found ls

unfoldable pub is_aggregate_not_found_error : Error → Bool
is_aggregate_not_found_error e = any_aggregate_not_found e.layers
