-- ===== src/GenericRepository.antt =====
-- internal/pkg/core/data/generic_repository.go: what the generic repositories of MongoDB and of gorm share.
use go_ecommerce_microservic.Common.{List, [], ◌∷◌, Outcome, ok, Action, pure, ◌>>=◌}
use go_ecommerce_microservic.HttpErrors.Chain.{GoError}

-- `mapper.Map` between entities and data models, and on slices of them
pub record Mapping (D E : Type 0) : Type 0 where
  pub to_data_model : E → Outcome GoError D
  pub to_entity : D → Outcome GoError E
  pub to_entities : List D → Outcome GoError (List E)

-- The data model is the entity's type itself, or another one.
pub data DataModel (E : Type 0) : Type 0 → Type 1 where
  same : DataModel E E
  mapped : {D : Type 0} → Mapping D E → DataModel E D

module _ {E : Type 0} where
  abbrev pub data_of : {D : Type 0} → DataModel E D → E → Outcome GoError D
  data_of same entity = ok entity
  data_of (mapped mapping) entity = mapping.to_data_model entity

  abbrev pub entity_of : {D : Type 0} → DataModel E D → D → Outcome GoError E
  entity_of same model = ok model
  entity_of (mapped mapping) data_model = mapping.to_entity data_model

  abbrev pub entities_of : {D : Type 0} → DataModel E D → List D → Outcome GoError (List E)
  entities_of same models = ok models
  entities_of (mapped mapping) data_models = mapping.to_entities data_models

  -- What an entity is after an update that gave a data model back; without a mapping it is left alone.
  abbrev pub entity_after : {D : Type 0} → DataModel E D → E → D → Outcome GoError E
  entity_after same entity updated = ok entity
  entity_after (mapped mapping) entity data_model = mapping.to_entity data_model

module _ {W E : Type 0} where
  -- The loop of `AddAll` and `UpdateAll`: the entities one by one, up to the first that fails.
  abbrev pub each : (E → Action W GoError E) → List E → Action W GoError (List E)
  each operation [] = pure []
  each operation (entity ∷ entities) =
      operation entity >>= λ changed. each operation entities >>= λ rest. pure (changed ∷ rest)
