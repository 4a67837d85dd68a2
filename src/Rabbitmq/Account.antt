-- ===== src/Rabbitmq/Account.antt =====
-- An account of what comes of a delivery (rabbitmq_consumer.go), without the retry library and the fold:
-- the specification that the consumer is held against.
use go_ecommerce_microservic.Common.{
  ℕ, zero, suc, List, [], ◌∷◌, ◌≡◌, if◌then◌else◌, Outcome, ok, err, panic,
}
use go_ecommerce_microservic.Rabbitmq.Consumer.{
  MessageConsumeContext, Server, acked, nacked, Libraries, RabbitMqConsumer, ConsumerHandler,
  ConsumerHandlerFunc, ConsumerPipeline, notify,
}

-- How a call ended, without its error.
pub data Verdict : Type 0 where
  done failed crashed : Verdict

module _ {E S : Type 0} where
  abbrev pub seen : Outcome {0, 0} E Unit × S → Verdict × S
  seen (ok a, s) = (done, s)
  seen (err e, s) = (failed, s)
  seen (panic, s) = (crashed, s)

module _ {W : Type 0} where
  abbrev pub again : (W → Verdict × W) → Verdict × W → Verdict × W
  again f (done, w) = (done, w)
  again f (failed, w) = f w
  again f (crashed, w) = (crashed, w)

  -- A call, and after a failure `n` more.
  abbrev pub tries : ℕ → (W → Verdict × W) → W → Verdict × W
  tries zero m w = m w
  tries (suc n) m w = again (tries n m) (m w)

  abbrev pub and_next : (W → Verdict × W) → Verdict × W → Verdict × W
  and_next f (done, w) = f w
  and_next f (failed, w) = (failed, w)
  and_next f (crashed, w) = (crashed, w)

module _ {W M E : Type 0} where
  -- The first pipeline is outermost.
  abbrev pub nested :
      List (ConsumerPipeline W M E)
      → ConsumerHandler W M E
      → MessageConsumeContext M
      → ConsumerHandlerFunc W M E
  nested [] handler context = handler context
  nested (pipe ∷ pipelines) handler context = pipe context (nested pipelines handler context)

  -- Every handler in turn, inside the pipelines, at most three times.
  abbrev pub serve :
      List (ConsumerPipeline W M E)
      → List (ConsumerHandler W M E)
      → MessageConsumeContext M
      → W
      → Verdict × W
  serve pipelines [] context w = (done, w)
  serve pipelines (handler ∷ handlers) context w =
      and_next (serve pipelines handlers context)
        (tries 2 (λ w. seen (nested pipelines handler context w)) w)

-- What a delivery leaves behind when its handlers end with a verdict: without automatic
-- acknowledgement, one settlement, of the delivery's tag, unless they crashed.
module _ {W M E : Type 0} (lib : Libraries W M E) (r : RabbitMqConsumer W M E)
    (context : MessageConsumeContext M) (tag : ℕ) (s : Server W) where
  abbrev pub served : Verdict × W → Verdict × Server W
  served (done, w) = (
    done,
    record s {
      world =
          if r.auto_ack
          then w
          else if lib.refuses (acked tag) w
          then w
          else notify lib r.is_consumed_notifications context.message w;
      settlements = if r.auto_ack then s.settlements else acked tag ∷ s.settlements;
    },
  )
  served (failed, w) = (
    done,
    record s {
      world = w;
      settlements = if r.auto_ack then s.settlements else nacked tag ∷ s.settlements;
    },
  )
  served (crashed, w) = (crashed, record s { world = w })

-- What a delivery leaves behind: with a context, what its handlers do and what follows; and when the
-- context cannot be made because the serializer panics, nothing.
module _ {W M E : Type 0} (lib : Libraries W M E) (r : RabbitMqConsumer W M E) (tag : ℕ)
    (s : Server W) where
  abbrev pub account : Outcome E (MessageConsumeContext M) → Verdict × Server W
  account (ok context) = served lib r context tag s (serve r.pipelines r.handlers context s.world)
  account (err e) = (failed, s)
  account panic = (crashed, s)

-- The documented behaviour of the libraries: `retry.Do` with a context that is not cancelled calls
-- again after an error while attempts are left, and `AggregateWithSeed` folds from the left.
pub record IsDocumented {W M E : Type 0} (lib : Libraries W M E) : Type 0 where
  pub retry_done :
      (n : ℕ) (m : ConsumerHandlerFunc W M E) (w w' : W)
      → seen (m w) ≡ (done, w')
      → seen (lib.retry (suc n) m w) ≡ (done, w')
  pub retry_crashed :
      (n : ℕ) (m : ConsumerHandlerFunc W M E) (w w' : W)
      → seen (m w) ≡ (crashed, w')
      → seen (lib.retry (suc n) m w) ≡ (crashed, w')
  pub retry_last :
      (m : ConsumerHandlerFunc W M E) (w w' : W)
      → seen (m w) ≡ (failed, w')
      → seen (lib.retry 1 m w) ≡ (failed, w')
  pub retry_again :
      (n : ℕ) (m : ConsumerHandlerFunc W M E) (w w' : W)
      → seen (m w) ≡ (failed, w')
      → seen (lib.retry (suc (suc n)) m w) ≡ seen (lib.retry (suc n) m w')
  pub aggregate_nil :
      (seed : ConsumerHandlerFunc W M E)
      (f : ConsumerHandlerFunc W M E → ConsumerPipeline W M E → ConsumerHandlerFunc W M E)
      → lib.aggregate_with_seed [] seed f ≡ seed
  pub aggregate_cons :
      (pipe : ConsumerPipeline W M E) (pipelines : List (ConsumerPipeline W M E))
      (seed : ConsumerHandlerFunc W M E)
      (f : ConsumerHandlerFunc W M E → ConsumerPipeline W M E → ConsumerHandlerFunc W M E)
      → lib.aggregate_with_seed (pipe ∷ pipelines) seed f
        ≡ lib.aggregate_with_seed pipelines (f seed pipe) f
