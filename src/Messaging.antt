-- ===== src/Messaging.antt =====
-- internal/pkg/core/metadata and internal/pkg/core/messaging/messageheader: the headers of a message. A
-- map is the list of its entries, the newest first; the JSON text is left out.
pub mod Headers
mod Tests
use go_ecommerce_microservic.Common.{
  ℕ, Bool, true, false, Text, text, text_eq, List, [], ◌∷◌, Option, none, some, if◌then◌else◌,
}

-- `interface{}`, as far as the code tells its values apart; a time is its nanoseconds.
pub data Value : Type 0 where
  a_string : Text → Value
  a_time : ℕ → Value
  another : ℕ → Value

abbrev pub Metadata : Type 0
Metadata = List (Text × Value)

-- `Get`: nil for a missing key
unfoldable pub get : Metadata → Text → Option Value
unfolding text_eq
get [] key = none
get ((k, v) ∷ rest) key = if text_eq k key then some v else get rest key

abbrev is_some : Option Value → Bool
is_some none = false
is_some (some v) = true

unfoldable pub exists_key : Metadata → Text → Bool
unfolding get
exists_key m key = is_some (get m key)

abbrev pub set : Metadata → Text → Value → Metadata
set m key v = (key, v) ∷ m

abbrev string_or_empty : Option Value → Text
string_or_empty (some (a_string s)) = s
string_or_empty _ = []

abbrev time_or_zero : Option Value → ℕ
time_or_zero (some (a_time t)) = t
time_or_zero _ = 0

unfoldable pub get_string : Metadata → Text → Text
unfolding get
get_string m key = string_or_empty (get m key)

unfoldable pub get_time : Metadata → Text → ℕ
unfolding get
get_time m key = time_or_zero (get m key)

unfoldable pub get_correlation_id : Metadata → Text
unfolding get_string
get_correlation_id m = get_string m (text "correlation-id")

unfoldable pub set_correlation_id : Metadata → Text → Metadata
set_correlation_id m val = set m (text "correlation-id") (a_string val)

unfoldable pub get_message_id : Metadata → Text
unfolding get_string
get_message_id m = get_string m (text "message-id")

unfoldable pub set_message_id : Metadata → Text → Metadata
set_message_id m val = set m (text "message-id") (a_string val)

unfoldable pub get_message_name : Metadata → Text
unfolding get_string
get_message_name m = get_string m (text "name")

unfoldable pub set_message_name : Metadata → Text → Metadata
set_message_name m val = set m (text "name") (a_string val)

unfoldable pub get_message_type : Metadata → Text
unfolding get_string
get_message_type m = get_string m (text "type")

unfoldable pub set_message_type : Metadata → Text → Metadata
set_message_type m val = set m (text "type") (a_string val)

-- The key is that of the message's type in the source too.
unfoldable pub set_message_content_type : Metadata → Text → Metadata
set_message_content_type m val = set m (text "type") (a_string val)

unfoldable pub get_message_content_type : Metadata → Text
unfolding get_string
get_message_content_type m = get_string m (text "content-type")

unfoldable pub get_message_created : Metadata → ℕ
unfolding get_time
get_message_created m = get_time m (text "created")

unfoldable pub set_message_created : Metadata → ℕ → Metadata
set_message_created m val = set m (text "created") (a_time val)
