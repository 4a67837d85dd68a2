-- ===== src/TypeMapper.antt =====
-- internal/pkg/reflection/typemapper/type_mapper.go: the types of a program by their names. A type is a
-- pointer, or any other type with its package's path, its full name and its short name. The types that the
-- runtime lists, the case conversions and the test for an interface are parameters; a map of lists is a
-- function that is [] where the map has no entry, since no entry holds an empty list.
pub mod Discovery
pub mod Serializers
mod Tests
use go_ecommerce_microservic.Common.{
  ℕ, Bool, true, false, Text, text, text_eq, List, [], ◌∷◌, ◌++◌, Option, none, some, Outcome, ok,
  panic, if◌then◌else◌, ◌==◌,
}
use go_ecommerce_microservic.HttpErrors.Chain.{GoError}

pub data GoType : Type 0 where
  plain : Text → Text → Text → GoType
  pointer : GoType → GoType

-- `String()`, `Name()` and `PkgPath()` of a type
abbrev pub full_name : GoType → Text
full_name (plain path full short) = full
full_name (pointer t) = b'*' ∷ full_name t

abbrev pub name : GoType → Text
name (plain path full short) = short
name (pointer t) = []

abbrev pub pkg_path : GoType → Text
pkg_path (plain path full short) = path
pkg_path (pointer t) = []

-- The dynamic type of a `reflect.Type`, when it is handed on as an `interface{}`.
abbrev pub rtype : GoType
rtype = pointer (plain (text "reflect") (text "reflect.rtype") (text "rtype"))

-- `GetFullTypeName` and `GetTypeName` of a value of this type, nil being none.
unfoldable pub get_full_type_name : Option GoType → Text
get_full_type_name none = []
get_full_type_name (some t) = full_name t

unfoldable pub get_type_name_by_type : GoType → Text
get_type_name_by_type (plain path full short) = short
get_type_name_by_type (pointer t) = b'*' ∷ name t

unfoldable pub get_type_name : Option GoType → Text
unfolding get_type_name_by_type
get_type_name none = []
get_type_name (some t) = get_type_name_by_type t

unfoldable pub get_none_pointer_type_name : Option GoType → Text
get_none_pointer_type_name none = []
get_none_pointer_type_name (some (plain path full short)) = short
get_none_pointer_type_name (some (pointer t)) = name t

-- `GetSnakeTypeName` and `GetKebabTypeName`; the name of a type that is no pointer is left as it is.
unfoldable pub get_cased_type_name : (Text → Text) → Option GoType → Text
get_cased_type_name convert none = []
get_cased_type_name convert (some (plain path full short)) = short
get_cased_type_name convert (some (pointer t)) = convert (name t)

-- `strings.Split(path, "/")`, its last part
abbrev pub last_part : Text → Text → Text
last_part part [] = part
last_part part (c ∷ cs) = last_part (if c == b'/' then [] else part ++ (c ∷ [])) cs

abbrev pub elem : GoType → GoType
elem (pointer t) = t
elem t = t

unfoldable pub get_package_name : GoType → Text
get_package_name t = last_part [] (pkg_path (elem t))

-- `types`, and the paths that `packages` has, whose maps are never filled
pub record Registry : Type 0 where
  pub types : Text → List GoType
  pub packages : Text → Bool

abbrev pub nothing_registered : Registry
nothing_registered = record { types = λ key. []; packages = λ path. false }

unfoldable pub register_type_with_key : Text → GoType → Registry → Registry
register_type_with_key key t r = record r {
  types = λ k. if text_eq key k then r.types k ++ (t ∷ []) else r.types k;
}

-- The names are those of the `reflect.Type` itself in the source too.
unfoldable pub register_type : GoType → Registry → Registry
unfolding register_type_with_key get_full_type_name get_type_name
register_type t r =
    register_type_with_key (get_type_name (some rtype)) t
      (register_type_with_key (get_full_type_name (some rtype)) t r)

abbrev pub with_package : Text → Registry → Registry
with_package path r = record r { packages = λ p. if text_eq path p then true else r.packages p }

-- The round of the loop of `discoverTypes` for a pointer to this struct type.
unfoldable pub discover_type : GoType → Registry → Registry
unfolding register_type_with_key get_type_name_by_type
discover_type t r = register_type_with_key (get_type_name_by_type (pointer t)) (pointer t) (
    register_type_with_key (get_type_name_by_type t) t (
      register_type_with_key (full_name (pointer t)) (pointer t) (
        register_type_with_key (full_name t) t
          (with_package (pkg_path (pointer t)) (with_package (pkg_path t) r)))))

unfoldable pub discover_types : List GoType → Registry → Registry
unfolding discover_type
discover_types [] r = r
discover_types (t ∷ ts) r = discover_types ts (discover_type t r)

abbrev pub first : List GoType → Option GoType
first [] = none
first (t ∷ ts) = some t

module _ (r : Registry) where
  unfoldable pub type_by_name : Text → Option GoType
  type_by_name type_name = first (r.types type_name)

  abbrev pub types_by_name : Text → List GoType
  types_by_name type_name = r.types type_name

  -- The maps of the packages have no names, so the first type of a name is out of range.
  unfoldable pub type_by_package_name : Text → Text → Outcome GoError (Option GoType)
  type_by_package_name path name = if r.packages path then panic else ok none

  abbrev pub types_by_package_name : Text → Text → List GoType
  types_by_package_name path name = []

module _ (implements : GoType → Bool) where
  abbrev pub first_implementing : List GoType → Option GoType
  first_implementing [] = none
  first_implementing (t ∷ ts) =
      let rest = first_implementing ts in if implements t then some t else rest

  unfoldable pub type_by_name_and_implemented_interface : Registry → Text → Option GoType
  type_by_name_and_implemented_interface r type_name = first_implementing (r.types type_name)

  unfoldable pub types_implemented_interface_with_filter_types : List GoType → List GoType
  types_implemented_interface_with_filter_types [] = []
  types_implemented_interface_with_filter_types (t ∷ ts) =
      let rest = types_implemented_interface_with_filter_types ts in
      if implements t then t ∷ rest else rest

-- `getInstanceFromType`: a new value of the type, by its type; nil has no kind.
unfoldable pub get_instance_from_type : Option GoType → Outcome GoError GoType
get_instance_from_type none = panic
get_instance_from_type (some t) = ok t

unfoldable pub instance_by_type_name : Registry → Text → Outcome GoError GoType
unfolding type_by_name get_instance_from_type
instance_by_type_name r type_name = get_instance_from_type (type_by_name r type_name)

unfoldable pub instance_by_package_name : Registry → Text → Text → Outcome GoError GoType
unfolding type_by_package_name get_instance_from_type
instance_by_package_name r path name = elim (type_by_package_name r path name) [
  | ok t ↦ get_instance_from_type t
  | _ ↦ panic
]

abbrev pub as_pointer : Option GoType → Outcome GoError GoType
as_pointer none = panic
as_pointer (some (plain path full short)) = ok (pointer (plain path full short))
as_pointer (some (pointer t)) = ok (pointer t)

unfoldable pub instance_pointer_by_type_name : Registry → Text → Outcome GoError GoType
unfolding type_by_name
instance_pointer_by_type_name r type_name = as_pointer (type_by_name r type_name)

unfoldable pub empty_instance_by_type_name_and_implemented_interface :
    (GoType → Bool) → Registry → Text → Outcome GoError GoType
unfolding type_by_name_and_implemented_interface get_instance_from_type
empty_instance_by_type_name_and_implemented_interface implements r type_name =
    get_instance_from_type (type_by_name_and_implemented_interface implements r type_name)

-- The name is that of the `reflect.Type` itself in the source too.
unfoldable pub empty_instance_by_type_and_implemented_interface :
    (GoType → Bool) → Registry → GoType → Outcome GoError GoType
unfolding empty_instance_by_type_name_and_implemented_interface get_type_name
empty_instance_by_type_and_implemented_interface implements r t =
    empty_instance_by_type_name_and_implemented_interface implements r (get_type_name (some rtype))
