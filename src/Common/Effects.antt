-- ===== src/Common/Effects.antt =====
-- What a Go function gives back: a value, an `error`, or a panic; and the same with the state that
-- the call leaves behind. What was written before an error or a panic stays written.
use mathlib.Core.Bool.{Bool, true, false}

pub data Outcome {ℓ κ} (E : Type ℓ) (A : Type κ) : Type (ℓ ⊔ κ) where
  ok : A → Outcome E A
  err : E → Outcome E A
  panic : Outcome E A

abbrev pub is_ok {ℓ κ} : {E : Type ℓ} {A : Type κ} → Outcome E A → Bool
is_ok (ok a) = true
is_ok _ = false

module _ {ℓ κ μ} {E : Type ℓ} {A : Type κ} {B : Type μ} where
  abbrev pub bind : Outcome E A → (A → Outcome E B) → Outcome E B
  bind (ok a) f = f a
  bind (err e) f = err e
  bind panic f = panic

  -- `errors.WrapIf` and the like: the error is replaced, a value and a panic pass.
  abbrev pub map_err : (A → B) → Outcome A E → Outcome B E
  map_err f (ok e) = ok e
  map_err f (err a) = err (f a)
  map_err f panic = panic

abbrev pub Action {ℓ κ μ} : Type ℓ → Type κ → Type μ → Type (ℓ ⊔ κ ⊔ μ)
Action S E A = S → Outcome E A × S

module _ {ℓ κ μ} {S : Type ℓ} {E : Type κ} {A : Type μ} where
  abbrev pub pure : A → Action S E A
  pure a s = (ok a, s)

  abbrev pub lift : Outcome E A → Action S E A
  lift r s = (r, s)

  abbrev pub wrap {ν} : {F : Type ν} → (E → F) → Action S E A → Action S F A
  wrap f m s = let (r, s') = m s in (map_err f r, s')

module _ {ℓ κ μ ν} {S : Type ℓ} {E : Type κ} {A : Type μ} {B : Type ν} where
  abbrev pub continue : Outcome E A → (A → Action S E B) → Action S E B
  continue (ok a) f s = f a s
  continue (err e) f s = (err e, s)
  continue panic f s = (panic, s)

  infixl 10 ◌>>=◌ ◌>>◌
  abbrev pub ◌>>=◌ : Action S E A → (A → Action S E B) → Action S E B
  ◌>>=◌ m f s = let (r, s') = m s in continue r f s'

  abbrev pub ◌>>◌ : Action S E A → Action S E B → Action S E B
  m >> n = m >>= λ _. n
