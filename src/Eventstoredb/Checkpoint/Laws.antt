-- ===== src/Eventstoredb/Checkpoint/Laws.antt =====
-- What the checkpoint repositories give back (internal/pkg/eventstroredb/
-- esdb_subscription_check_point_repository.go, internal/pkg/es/
-- inmemory_subscription_checkpoint_repository.go).
use go_ecommerce_microservic.Common.{ℕ, suc, ◌≡◌, Text, text_eq, ok, arith, ◌≢◌, if◌then◌else◌}
use go_ecommerce_microservic.Eventstoredb.Client.{Client}
use go_ecommerce_microservic.Eventstoredb.Serializer.{Serializers}
use go_ecommerce_microservic.Eventstoredb.Checkpoint.{load_checkpoint, Checkpoints, in_memory}

-- `Load` of the EventStoreDB repository never gives a position other than 0, whatever the checkpoint
-- stream holds: the stored event is read as a domain event, and a checkpoint is none.
pub load_checkpoint-zero :
    {S P M : Type 0} (c : Client S) (z : Serializers P M) (id : Text) (s : S) (position : ℕ)
    → (load_checkpoint c z id s).0 ≢ ok (suc position)
unfolding load_checkpoint
load_checkpoint-zero c z id s position h = ground arith

-- In memory, `Load` after `Store` gives the stored position for the same subscription, and for every
-- other subscription what it gave before.
pub in_memory-load-store :
    (id other : Text) (position : ℕ) (s : Checkpoints)
    → (in_memory.load other (in_memory.store id position s).1).0
      ≡ (if text_eq id other then ok position else (in_memory.load other s).0)
unfolding in_memory
in_memory-load-store id other position s = ground arith
