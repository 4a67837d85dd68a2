-- ===== src/Messaging/Tests.antt =====
-- The theorems about internal/pkg/core/messaging/messageheader at one input.
use go_ecommerce_microservic.Common.{◌≡◌, text, [], ◌∷◌}
use go_ecommerce_microservic.Messaging.{
  Metadata, a_string, get_correlation_id, set_correlation_id, get_message_id, set_message_id,
  get_message_name, set_message_name, get_message_type, set_message_type, get_message_content_type,
  set_message_content_type, get_message_created, set_message_created,
}
use go_ecommerce_microservic.Messaging.Headers.{
  set_headers-get, set_message_content_type-get_message_type,
}

abbrev json_headers : Metadata
json_headers = (text "content-type", a_string (text "json")) ∷ []

set_headers-get_test :
    let m' =
      set_message_created
        (set_message_type
          (set_message_name
            (set_correlation_id (set_message_id json_headers (text "1")) (text "2"))
            (text "n"))
          (text "t"))
        5 in
    (get_message_id m' ≡ text "1")
    × (get_correlation_id m' ≡ text "2")
    × (get_message_name m' ≡ text "n")
    × (get_message_type m' ≡ text "t")
    × (get_message_created m' ≡ 5)
    × (get_message_content_type m' ≡ get_message_content_type json_headers)
set_headers-get_test = set_headers-get json_headers (text "1") (text "2") (text "n") (text "t") 5

set_message_content_type-get_message_type_test :
    let m' = set_message_content_type (set_message_type json_headers (text "t")) (text "xml") in
    (get_message_type m' ≡ text "xml")
    × (get_message_content_type m' ≡ get_message_content_type json_headers)
set_message_content_type-get_message_type_test =
    set_message_content_type-get_message_type json_headers (text "t") (text "xml")
