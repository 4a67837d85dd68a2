-- ===== src/TypeMapper/Tests.antt =====
-- Two packages with a type of the same name, for the theorems on the serializers.
use go_ecommerce_microservic.Common.{
  Bool, true, false, Text, text, text_eq, List, [], ◌∷◌, ◌≡◌, refl, some, ok, All,
}
use go_ecommerce_microservic.TypeMapper.{GoType, plain, pointer, nothing_registered, discover_types}
use go_ecommerce_microservic.TypeMapper.Discovery.{IsStruct}
use go_ecommerce_microservic.TypeMapper.Serializers.{JsonSerializer, json_content_type, deserialize}
use go_ecommerce_microservic.TypeMapper.Serializers.Decoding.{deserialize-discover_types}

abbrev created_in : Text → GoType
created_in path = plain path (text "v1.Created") (text "Created")

abbrev types : List GoType
types =
    created_in (text "writes")
    ∷ plain (text "dtos") (text "v1.Dto") (text "Dto")
    ∷ plain (text "reads") (text "reads.Found[writes.Dto]") (text "Found[writes.Dto]")
    ∷ plain [] (text "struct {}") []
    ∷ created_in (text "reads")
    ∷ []

-- All pointers are messages; a value is its type.
abbrev is_pointer : GoType → Bool
is_pointer (pointer t) = true
is_pointer t = false

abbrev json : JsonSerializer GoType
json = record {
  marshal = λ t. ok [];
  unmarshal = λ bytes t. ok t;
  type_of = λ t. t;
  implements = is_pointer;
}

types-IsStruct : All (IsStruct (text "Created")) types
unfolding text_eq
types-IsStruct = (
  (refl, refl, refl),
  ((refl, refl, refl), ((refl, refl, refl), ((refl, refl, refl), ((refl, refl, refl), tt)))),
)

deserialize-discover_types_example :
    deserialize json
      (discover_types types nothing_registered)
      (some (text "{}"))
      (text "*Created")
      json_content_type
    ≡ ok (some (pointer (created_in (text "writes"))))
unfolding text_eq
deserialize-discover_types_example =
    deserialize-discover_types json types (text "Created") (text "{}") types-IsStruct
