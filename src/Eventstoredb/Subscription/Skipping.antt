-- ===== src/Eventstoredb/Subscription/Skipping.antt =====
-- The checkpoints of EventStoreDB (internal/pkg/eventstroredb/
-- esdb_subscription_check_point_repository.go) before the worker (subscription_all_worker.go).
use go_ecommerce_microservic.Common.{ℕ, ◌≡◌, refl, ◌⊎◌, false, Text, List, arith, ok, text_eq}
use go_ecommerce_microservic.Eventstoredb.Client.{EventData, ResolvedEvent, IsRecorded}
use go_ecommerce_microservic.Eventstoredb.Serializer.{Serializers}
use go_ecommerce_microservic.Eventstoredb.Checkpoint.{serialize_checkpoint, checkpoint_type_name}
use go_ecommerce_microservic.Eventstoredb.Subscription.{is_checkpoint_event}

serialize_checkpoint-event_type :
    {P M : Type 0} (z : Serializers P M) (write : Text → ℕ → ℕ ⊎ List ℕ) (no_metadata : M) (id : ℕ)
    (subscription : Text) (position : ℕ) (d : EventData)
    → serialize_checkpoint z write no_metadata id subscription position ≡ ok d
    → d.event_type ≡ checkpoint_type_name
unfolding serialize_checkpoint
serialize_checkpoint-event_type z write no_metadata id subscription position d h = ground arith

-- A checkpoint event that the repository serialized and the server recorded is not recognised as a
-- checkpoint by the worker.
pub serialize_checkpoint-is_checkpoint_event :
    {P M : Type 0} (z : Serializers P M) (write : Text → ℕ → ℕ ⊎ List ℕ) (no_metadata : M) (id : ℕ)
    (subscription : Text) (position : ℕ) (d : EventData) (r : ResolvedEvent)
    → serialize_checkpoint z write no_metadata id subscription position ≡ ok d
    → IsRecorded d r
    → is_checkpoint_event r ≡ false
unfolding is_checkpoint_event text_eq
serialize_checkpoint-is_checkpoint_event z write no_metadata id subscription position d r h i =
    let e = serialize_checkpoint-event_type z write no_metadata id subscription position d h in
    let f = i.same_type in rw f (rw e refl)
