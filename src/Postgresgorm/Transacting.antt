-- ===== src/Postgresgorm/Transacting.antt =====
-- The two places that run something in a transaction: `RunInTx` of gorm_dbcontext.go, and the pipeline of
-- internal/pkg/postgresgorm/pipelines.
use go_ecommerce_microservic.Common.{true, ◌≡◌, refl, Option, some, Outcome, ok, err, panic, Action}
use go_ecommerce_microservic.HttpErrors.Chain.{GoError}
use go_ecommerce_microservic.Postgresgorm.{
  GormDb, Transactions, ended, ended_action, committed, committed_action, run_in_tx,
  mediator_transaction_pipeline,
}

-- What is left of an outcome without its result.
abbrev pub forgotten : {W R : Type 0} → Outcome GoError R × W → Outcome {0, 0} GoError Unit × W
forgotten (ok r, w) = (ok tt, w)
forgotten (err e, w) = (err e, w)
forgotten (panic, w) = (panic, w)

module _ {W D T R : Type 0} (transactions : Transactions W D T) where
  committed-forgotten :
      (tx : T) (r : R) (answer : Outcome {0, 0} GoError Unit × W)
      → forgotten (committed transactions tx r answer) ≡ committed_action transactions tx answer
  committed-forgotten tx r (ok a, w) = refl
  committed-forgotten tx r (err e, w) = refl
  committed-forgotten tx r (panic, w) = refl

  ended-forgotten :
      (tx : T) (answer : Outcome GoError R × W)
      → forgotten (ended transactions tx answer) ≡ ended_action transactions tx (forgotten answer)
  ended-forgotten tx (ok r, w) = committed-forgotten tx r (transactions.commit tx w)
  ended-forgotten tx (err e, w) = refl
  ended-forgotten tx (panic, w) = refl

  -- Behind the pipeline of transactions, a request that asks for one does what `RunInTx` does with the
  -- same handler: it commits and rolls back in the same cases, and gives the same error.
  pub mediator_transaction_pipeline-run_in_tx :
      (next : Option (GormDb W D) → Action W GoError R) (w : W)
      → forgotten (mediator_transaction_pipeline transactions true next w)
        ≡ run_in_tx transactions (λ db w. forgotten (next (some db) w)) w
  unfolding mediator_transaction_pipeline run_in_tx
  mediator_transaction_pipeline-run_in_tx next w = ended-forgotten _ (next _ _)

module _ {W D T : Type 0} (transactions : Transactions W D T) where
  -- Where a rollback gives back what was there at the beginning, an action that panics leaves the
  -- database as it was, and `RunInTx` answers that there is no error.
  pub run_in_tx-panic :
      (action : GormDb W D → Action {0, 0, 0} W GoError Unit) (w : W)
      → ((now : W) → transactions.rollback (transactions.begin w).0 now ≡ w)
      → (action (transactions.handle_of (transactions.begin w).0) (transactions.begin w).1).0
        ≡ panic
      → run_in_tx transactions action w ≡ (ok tt, w)
  unfolding run_in_tx
  run_in_tx-panic action w restores panics = rw panics (rw (restores _))
