-- ===== src/TypeMapper/Serializers/Decoding.antt =====
-- What the serializers of internal/pkg/core/serializer/json decode bytes to, once the types of the program are
-- discovered.
use go_ecommerce_microservic.Common.{
  Bool, true, Text, List, [], ◌∷◌, ◌≡◌, ap, Option, none, some, Outcome, ok, panic, arith, map_err,
  bind, All,
}
use go_ecommerce_microservic.HttpErrors.Chain.{GoError}
use go_ecommerce_microservic.TypeMapper.{
  GoType, Registry, nothing_registered, discover_types, first_implementing,
  type_by_name_and_implemented_interface, get_instance_from_type,
  empty_instance_by_type_name_and_implemented_interface,
}
use go_ecommerce_microservic.TypeMapper.Discovery.{
  IsStruct, pointers_named, discover_types-pointers_named,
}
use go_ecommerce_microservic.TypeMapper.Serializers.{
  JsonSerializer, json_content_type, unmarshaling_error, deserialize,
}

first_implementing-implements :
    (implements : GoType → Bool) (ts : List GoType) (t : GoType)
    → first_implementing implements ts ≡ some t
    → implements t ≡ true
first_implementing-implements implements [] t h = cc
first_implementing-implements implements (u ∷ ts) t h =
    ground (arith, first_implementing-implements implements ts t)

module _ {V : Type 0} (s : JsonSerializer V) where
  -- What bytes are decoded to, by the first type of the name that has the interface.
  abbrev pub decoded_as : Text → Text → Option GoType → Outcome GoError (Option V)
  decoded_as bytes type_name none = panic
  decoded_as bytes type_name (some t) =
      bind (map_err (unmarshaling_error s type_name) (s.unmarshal bytes t)) λ v. ok (some v)

  deserialize-found :
      (r : Registry) (bytes key : Text) (found : Option GoType)
      → first_implementing s.implements (r.types key) ≡ found
      → deserialize s r (some bytes) key json_content_type ≡ decoded_as bytes key found
  unfolding deserialize empty_instance_by_type_name_and_implemented_interface
      type_by_name_and_implemented_interface get_instance_from_type
  deserialize-found r bytes key none h = rw h
  deserialize-found r bytes key (some t) h =
      let has = first_implementing-implements s.implements (r.types key) t h in rw (h, has)

  -- Bytes with the name of a pointer to a type are decoded as the first discovered type of that short name
  -- whose pointer has the interface of messages, whatever its package is; and when there is none, the
  -- serializer panics instead of giving its error, as it does for every name of a type that was not
  -- discovered. The content type is that of JSON, no name of a discovered struct begins with a star, and none
  -- has the short name as its full name.
  pub deserialize-discover_types :
      (ts : List GoType) (short bytes : Text)
      → All (IsStruct short) ts
      → deserialize s
          (discover_types ts nothing_registered)
          (some bytes)
          (b'*' ∷ short)
          json_content_type
        ≡ decoded_as bytes
            (b'*' ∷ short)
            (first_implementing s.implements (pointers_named short ts))
  unfolding deserialize empty_instance_by_type_name_and_implemented_interface
  deserialize-discover_types ts short bytes structs =
      deserialize-found (discover_types ts nothing_registered) bytes (b'*' ∷ short)
        (first_implementing s.implements (pointers_named short ts))
        (ap (first_implementing s.implements)
          (discover_types-pointers_named ts short nothing_registered structs))
