-- ===== src/CatalogReads/Consumers/Tests.antt =====
-- Messages without a name, for the theorem on messages that the consumers cannot use.
use go_ecommerce_microservic.Common.{
  ℕ, ◌+◌, Text, text, [], ◌∷◌, Option, none, some, Outcome, ok, err,
}
use go_ecommerce_microservic.HttpErrors.Chain.{GoError, leaf}
use go_ecommerce_microservic.CatalogReads.Consumers.{
  ProductCreated, ProductUpdated, ProductDeleted, CatalogLibraries,
}

abbrev required : Text → Option GoError
required [] = some (leaf (text "cannot be blank"))
required (c ∷ cs) = none

abbrev parsed : Text → Outcome GoError Text
parsed [] = err (leaf (text "uuid: incorrect UUID length"))
parsed (c ∷ cs) = ok (c ∷ cs)

abbrev lib : CatalogLibraries ℕ ℕ
lib = record {
  validate_create = λ command. required command.name;
  validate_update = λ command. required command.name;
  validate_delete = required;
  send_create = λ command w. (ok command.id, w + 1);
  send_update = λ command w. (ok tt, w + 1);
  send_delete = λ id w. (ok tt, w + 1);
  uuid_from_string = parsed;
}

abbrev created : ProductCreated ℕ
created = record { product_id = text "p"; name = []; description = []; price = 3; created_at = 9 }

abbrev updated : ProductUpdated ℕ
updated = record { product_id = text "p"; name = []; description = []; price = 3; updated_at = 9 }

abbrev deleted : ProductDeleted
deleted = record { product_id = [] }
