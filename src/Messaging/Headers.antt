-- ===== src/Messaging/Headers.antt =====
-- Which headers a setter changes (internal/pkg/core/messaging/messageheader).
use go_ecommerce_microservic.Common.{ℕ, ◌≡◌, refl, Text, text_eq}
use go_ecommerce_microservic.Messaging.{
  Metadata, get_correlation_id, set_correlation_id, get_message_id, set_message_id,
  get_message_name, set_message_name, get_message_type, set_message_type, get_message_content_type,
  set_message_content_type, get_message_created, set_message_created,
}

-- A message whose id, correlation id, name, type and time were set, in any earlier state of the headers,
-- has them all.
pub set_headers-get :
    (m : Metadata) (id correlation_id name type : Text) (created : ℕ)
    → let m' =
        set_message_created
          (set_message_type
            (set_message_name (set_correlation_id (set_message_id m id) correlation_id) name)
            type)
          created in
      (get_message_id m' ≡ id)
      × (get_correlation_id m' ≡ correlation_id)
      × (get_message_name m' ≡ name)
      × (get_message_type m' ≡ type)
      × (get_message_created m' ≡ created)
      × (get_message_content_type m' ≡ get_message_content_type m)
unfolding set_correlation_id get_correlation_id set_message_id get_message_id set_message_name
    get_message_name set_message_type get_message_type set_message_created get_message_created
    get_message_content_type text_eq
set_headers-get m id correlation_id name type created = (refl, refl, refl, refl, refl, refl)

-- Setting the content type of a message replaces its type, and leaves its content type as it was.
pub set_message_content_type-get_message_type :
    (m : Metadata) (type content_type : Text)
    → let m' = set_message_content_type (set_message_type m type) content_type in
      (get_message_type m' ≡ content_type)
      × (get_message_content_type m' ≡ get_message_content_type m)
unfolding set_message_type get_message_type set_message_content_type get_message_content_type
    text_eq
set_message_content_type-get_message_type m type content_type = (refl, refl)
