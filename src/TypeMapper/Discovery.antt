-- ===== src/TypeMapper/Discovery.antt =====
-- Which types internal/pkg/reflection/typemapper/type_mapper.go finds under the name of a pointer.
use mathlib.Core.List.{append_assoc, append-nil}
use go_ecommerce_microservic.Common.{
  Bool, false, Text, text_eq, text_eq-ne, List, [], ◌∷◌, ◌++◌, ◌≡◌, refl, sym, ap, ◌∙◌, inl, inr,
  Bool-cases, ◌==◌, if◌then◌else◌, All,
}
use go_ecommerce_microservic.TypeMapper.{
  GoType, plain, pointer, name, Registry, register_type_with_key, get_type_name_by_type,
  discover_type, discover_types,
}

-- Whether a text begins with a star.
abbrev pub has_star : Text → Bool
has_star [] = false
has_star (c ∷ s) = c == b'*'

-- A struct type whose names do not begin with a star, as Go names every type but pointers, generic ones and
-- anonymous ones too, and whose full name, which is qualified by the package, is not the given short name.
abbrev pub IsStruct : Text → GoType → Type 0
IsStruct short (plain path full n) =
    (text_eq full short ≡ false) × (has_star full ≡ false) × (has_star n ≡ false)
IsStruct short (pointer t) = ⊥

-- The pointers to the types with a short name, in their order.
abbrev pub pointers_named : Text → List GoType → List GoType
pointers_named short [] = []
pointers_named short (t ∷ ts) =
    let rest = pointers_named short ts in if text_eq (name t) short then pointer t ∷ rest else rest

pointers_named-cons :
    (short : Text) (t : GoType) (ts : List GoType)
    → pointers_named short (t ∷ ts) ≡ pointers_named short (t ∷ []) ++ pointers_named short ts
pointers_named-cons short t ts = elim (Bool-cases (text_eq (name t) short)) [
  | inl e ↦ rw e
  | inr e ↦ rw e
]

text_eq-star : (s t : Text) → text_eq (b'*' ∷ s) (b'*' ∷ t) ≡ text_eq s t
unfolding text_eq
text_eq-star s t = refl

text_eq-starred : (s t : Text) → has_star s ≡ false → text_eq s (b'*' ∷ t) ≡ false
text_eq-starred s t h = text_eq-ne s (b'*' ∷ t) (λ e. cc (ap has_star e, h))

discover_type-pointers_named :
    (t : GoType) (short : Text) (r : Registry)
    → IsStruct short t
    → (discover_type t r).types (b'*' ∷ short)
      ≡ r.types (b'*' ∷ short) ++ pointers_named short (t ∷ [])
unfolding discover_type register_type_with_key get_type_name_by_type
discover_type-pointers_named (pointer t) short r struct = absurd struct
discover_type-pointers_named (plain path full n) short r struct =
    rw
      (
        text_eq-star n short,
        text_eq-star full short,
        text_eq-starred n short struct.2,
        struct.0,
        text_eq-starred full short struct.1,
      )
      (elim (Bool-cases (text_eq n short)) [
        | inl e ↦ rw e refl
        | inr e ↦ rw e (sym (append-nil _))
      ])

-- After the discovery of the types of a program, the types under the name of a pointer are the pointers
-- to the discovered types of that short name, in the order of their discovery, whatever their packages
-- are: so the first package wins. No name of a discovered struct begins with a star, and no full name is the short name.
pub discover_types-pointers_named :
    (ts : List GoType) (short : Text) (r : Registry)
    → All (IsStruct short) ts
    → (discover_types ts r).types (b'*' ∷ short) ≡ r.types (b'*' ∷ short) ++ pointers_named short ts
unfolding discover_types
discover_types-pointers_named [] short r structs = sym (append-nil _)
discover_types-pointers_named (t ∷ ts) short r structs =
    discover_types-pointers_named ts short (discover_type t r) structs.1
    ∙ ap (λ found. found ++ pointers_named short ts)
        (discover_type-pointers_named t short r structs.0)
    ∙ append_assoc (r.types (b'*' ∷ short)) (pointers_named short (t ∷ []))
        (pointers_named short ts)
    ∙ ap (λ found. r.types (b'*' ∷ short) ++ found) (sym (pointers_named-cons short t ts))
