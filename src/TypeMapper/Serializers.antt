-- ===== src/TypeMapper/Serializers.antt =====
-- internal/pkg/core/serializer/json/message_serializer.go and event_serializer.go: the serializers of messages
-- and of domain events, which differ in the interface and in the texts of errors. JSON is a parameter: `V` are
-- the values with their types. Bytes that are nil are none.
pub mod Decoding
use go_ecommerce_microservic.Common.{
  Bool, Text, text, text_eq, ◌++◌, Option, none, some, Outcome, ok, err, panic, bind, map_err,
  if◌then◌else◌,
}
use go_ecommerce_microservic.HttpErrors.Chain.{GoError, leaf, annotated}
use go_ecommerce_microservic.TypeMapper.{
  GoType, rtype, Registry, get_type_name, instance_by_type_name,
  empty_instance_by_type_name_and_implemented_interface,
}

-- The JSON serializer, the type of a value, and whether a type has the interface.
pub record JsonSerializer (V : Type 0) : Type 0 where
  pub marshal : V → Outcome GoError Text
  pub unmarshal : Text → GoType → Outcome GoError V
  pub type_of : V → GoType
  pub implements : GoType → Bool

pub record SerializationResult : Type 0 where
  pub bytes : Option Text
  pub content_type : Text

abbrev pub json_content_type : Text
json_content_type = text "application/json"

module _ {V : Type 0} (s : JsonSerializer V) where
  abbrev pub marshaling_error : GoType → GoError → GoError
  marshaling_error t =
      annotated (text "error in Marshaling: `" ++ (get_type_name (some t) ++ text "`"))

  unfoldable pub serialize_object : Option V → Outcome GoError SerializationResult
  serialize_object none = ok (record { bytes = none; content_type = json_content_type })
  serialize_object (some v) =
      bind (map_err (marshaling_error (s.type_of v)) (s.marshal v))
        λ bytes. ok (record { bytes = some bytes; content_type = json_content_type })

  abbrev pub unmarshaling_error : Text → GoError → GoError
  unmarshaling_error type_name =
      annotated (text "error in Unmarshaling: `" ++ (type_name ++ text "`"))

  -- What follows once there is an instance; `keep` is the assertion of the interface, or nothing.
  abbrev pub unmarshaled :
      (GoType → V → Outcome GoError V) → Text → Text → GoType → Outcome GoError (Option V)
  unmarshaled keep bytes type_name t =
      bind (map_err (unmarshaling_error type_name) (s.unmarshal bytes t))
        λ v. bind (keep t v) λ v'. ok (some v')

  abbrev pub decode :
      (GoType → V → Outcome GoError V) → Text → Text → Text → GoType → Outcome GoError (Option V)
  decode keep bytes type_name content_type t =
      if text_eq content_type json_content_type
      then unmarshaled keep bytes type_name t
      else err (leaf (text "contentType: " ++ (content_type ++ text " is not supported")))

  abbrev pub asserted : GoType → V → Outcome GoError V
  asserted t v = if s.implements t then ok v else panic

  -- The instance is never nil, so the test for nil that follows is left out.
  unfoldable pub deserialize : Registry → Option Text → Text → Text → Outcome GoError (Option V)
  unfolding empty_instance_by_type_name_and_implemented_interface text_eq
  deserialize r none type_name content_type = ok none
  deserialize r (some bytes) type_name content_type =
      bind (empty_instance_by_type_name_and_implemented_interface s.implements r type_name)
        (decode asserted bytes type_name content_type)

  unfoldable pub deserialize_object :
      Registry → Option Text → Text → Text → Outcome GoError (Option V)
  unfolding instance_by_type_name text_eq
  deserialize_object r none type_name content_type = ok none
  deserialize_object r (some bytes) type_name content_type =
      bind (instance_by_type_name r type_name) (decode (λ t v. ok v) bytes type_name content_type)

  -- The name is that of the `reflect.Type` itself in the source too.
  unfoldable pub deserialize_type :
      Registry → Option Text → GoType → Text → Outcome GoError (Option V)
  unfolding deserialize get_type_name
  deserialize_type r none t content_type = ok none
  deserialize_type r (some bytes) t content_type =
      deserialize r (some bytes) (get_type_name (some rtype)) content_type
