-- ===== src/CatalogReads/Consumers/Refusals.antt =====
-- Messages that the consumers of internal/services/catalogreadservice/internal/products/features cannot use.
use go_ecommerce_microservic.Common.{Bool, true, ◌≡◌, Outcome, err}
use go_ecommerce_microservic.HttpErrors.Chain.{GoError}

-- A call that fails with this kind of error and leaves the world as it was, for the message to be handled again.
abbrev pub Refuses : {W : Type 0} → (GoError → Bool) → Outcome {0, 0} GoError Unit × W → W → Type 0
Refuses kind r w = (e : GoError) × (r ≡ (err e, w)) × (kind e ≡ true)
