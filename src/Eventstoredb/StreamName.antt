-- ===== src/Eventstoredb/StreamName.antt =====
-- internal/pkg/es/models/stream_name/stream_name.go: the name of an aggregate's stream, the type's
-- name in lower case, a dash and the id. Type names are ASCII. `uuid.UUID.String` and
-- `uuid.FromStringOrNil` are parameters.
use go_ecommerce_microservic.Common.{
  ℕ, ◌+◌, ◌≡◌, ◌≢◌, refl, Text, text, [], ◌∷◌, ◌++◌, arith, ◌==◌, leb, ◌&&◌, if◌then◌else◌, All,
}

-- `strings.ToLower` on ASCII
unfoldable pub to_lower : Text → Text
to_lower [] = []
to_lower (c ∷ cs) = (if leb b'A' c && leb c b'Z' then c + 32 else c) ∷ to_lower cs

-- The text behind the first dash, or all of it: `name[strings.Index(name, "-") + 1:]`.
unfoldable pub after_dash : Text → Text → Text
after_dash whole [] = whole
after_dash whole (c ∷ cs) = if c == b'-' then cs else after_dash whole cs

-- `For` and `ForID`, which differ in where they take the id from.
unfoldable pub for_id : (ℕ → Text) → Text → ℕ → Text
unfolding to_lower
for_id uuid_string aggregate_name id = to_lower aggregate_name ++ (text "-" ++ uuid_string id)

unfoldable pub get_id : (Text → ℕ) → Text → ℕ
unfolding after_dash
get_id from_string_or_nil name = from_string_or_nil (after_dash name name)

after_dash-to_lower :
    (whole name rest : Text)
    → All (λ c. c ≢ b'-') name
    → after_dash whole (to_lower name ++ (text "-" ++ rest)) ≡ rest
unfolding after_dash to_lower
after_dash-to_lower whole [] rest h = refl
after_dash-to_lower whole (c ∷ cs) rest h =
    ground (arith, h.0, after_dash-to_lower whole cs rest h.1)

-- If ids survive printing and parsing and the type's name has no dash, `GetId` of the name of an
-- aggregate's stream is the aggregate's id.
pub get_id-for_id :
    (uuid_string : ℕ → Text) (from_string_or_nil : Text → ℕ)
    → ((i : ℕ) → from_string_or_nil (uuid_string i) ≡ i)
    → (name : Text) (id : ℕ) → All (λ c. c ≢ b'-') name
    → get_id from_string_or_nil (for_id uuid_string name id) ≡ id
unfolding get_id for_id
get_id-for_id uuid_string from_string_or_nil parsed name id h =
    rw (after_dash-to_lower _ name (uuid_string id) h) (parsed id)
