-- ===== src/Rabbitmq/Serving.antt =====
-- That the handlers of a consumer (rabbitmq_consumer.go) are run as its account says: the retry library, the
-- pipelines and the handlers in turn.
use go_ecommerce_microservic.Common.{
  ℕ, zero, suc, text, List, [], ◌∷◌, ◌++◌, ◌≡◌, refl, ap, fun_ext, ◌∙◌, Outcome, ok, err, panic,
  wrap, ◌>>◌,
}
use go_ecommerce_microservic.Rabbitmq.Consumer.{
  MessageConsumeContext, Libraries, RabbitMqConsumer, ConsumerHandler, ConsumerHandlerFunc,
  ConsumerPipeline, revers_order, attempt, run_handlers_with_retry, run_handlers,
}
use go_ecommerce_microservic.Rabbitmq.Account.{
  Verdict, done, failed, crashed, seen, again, tries, and_next, nested, serve, IsDocumented,
}

seen-wrap :
    {W E : Type 0} (f : E → E) (m : W → Outcome {0, 0} E Unit × W) (w : W)
    → seen (wrap f m w) ≡ seen (m w)
seen-wrap {W = W} {E = E} f m w = by_result (m w) refl
  where
    by_result : (r : Outcome {0, 0} E Unit × W) → m w ≡ r → seen (wrap f m w) ≡ seen (m w)
    by_result (ok a, w') h = rw h
    by_result (err e, w') h = rw h
    by_result (panic, w') h = rw h

seen->> :
    {W E : Type 0} (m n : W → Outcome {0, 0} E Unit × W) (w : W)
    → seen ((m >> n) w) ≡ and_next (λ w'. seen (n w')) (seen (m w))
seen->> {W = W} {E = E} m n w = by_result (m w) refl
  where
    by_result :
        (r : Outcome {0, 0} E Unit × W)
        → m w ≡ r
        → seen ((m >> n) w) ≡ and_next (λ w'. seen (n w')) (seen (m w))
    by_result (ok a, w') h = rw h
    by_result (err e, w') h = rw h
    by_result (panic, w') h = rw h

module _ {W M E : Type 0} (lib : Libraries W M E) (documented : IsDocumented lib) where
  retry-once :
      (m : ConsumerHandlerFunc W M E) (w : W) (v : Verdict × W)
      → seen (m w) ≡ v
      → seen (lib.retry 1 m w) ≡ v
  retry-once m w (done, w') h = documented.retry_done 0 m w w' h
  retry-once m w (failed, w') h = documented.retry_last m w w' h
  retry-once m w (crashed, w') h = documented.retry_crashed 0 m w w' h

  retry-more :
      (n : ℕ) (m : ConsumerHandlerFunc W M E) (w : W) (v : Verdict × W)
      → ((w' : W) → seen (lib.retry (suc n) m w') ≡ tries n (λ w. seen (m w)) w')
      → seen (m w) ≡ v
      → seen (lib.retry (suc (suc n)) m w) ≡ again (tries n (λ w. seen (m w))) v
  retry-more n m w (done, w') rest h = documented.retry_done (suc n) m w w' h
  retry-more n m w (failed, w') rest h = documented.retry_again n m w w' h ∙ rest w'
  retry-more n m w (crashed, w') rest h = documented.retry_crashed (suc n) m w w' h

  retry-tries :
      (n : ℕ) (m : ConsumerHandlerFunc W M E) (w : W)
      → seen (lib.retry (suc n) m w) ≡ tries n (λ w. seen (m w)) w
  retry-tries zero m w = retry-once m w (seen (m w)) refl
  retry-tries (suc n) m w = retry-more n m w (seen (m w)) (retry-tries n m) refl

  aggregate-last :
      (pipelines : List (ConsumerPipeline W M E)) (pipe : ConsumerPipeline W M E)
      (seed : ConsumerHandlerFunc W M E)
      (f : ConsumerHandlerFunc W M E → ConsumerPipeline W M E → ConsumerHandlerFunc W M E)
      → lib.aggregate_with_seed (pipelines ++ (pipe ∷ [])) seed f
        ≡ f (lib.aggregate_with_seed pipelines seed f) pipe
  aggregate-last [] pipe seed f = rw (
    documented.aggregate_cons pipe [] seed f,
    documented.aggregate_nil (f seed pipe) f,
    documented.aggregate_nil seed f,
  )
  aggregate-last (p ∷ pipelines) pipe seed f =
      rw
        (
          documented.aggregate_cons p (pipelines ++ (pipe ∷ [])) seed f,
          documented.aggregate_cons p pipelines seed f,
        )
        (aggregate-last pipelines pipe (f seed p) f)

  aggregate-nested :
      (pipelines : List (ConsumerPipeline W M E)) (handler : ConsumerHandler W M E)
      (context : MessageConsumeContext M)
      → lib.aggregate_with_seed
          (revers_order pipelines)
          (handler context)
          (λ next pipe. pipe context next)
        ≡ nested pipelines handler context
  unfolding revers_order
  aggregate-nested [] handler context = documented.aggregate_nil _ _
  aggregate-nested (pipe ∷ pipelines) handler context =
      rw
        (aggregate-last (revers_order pipelines) pipe (handler context)
          (λ next pipe. pipe context next))
        (ap (pipe context) (aggregate-nested pipelines handler context))

  attempt-nested :
      (pipelines : List (ConsumerPipeline W M E)) (handler : ConsumerHandler W M E)
      (context : MessageConsumeContext M) (w : W)
      → seen (attempt lib pipelines handler context w) ≡ seen (nested pipelines handler context w)
  unfolding attempt
  attempt-nested [] handler context w = refl
  attempt-nested (pipe ∷ pipelines) handler context w =
      rw (aggregate-nested (pipe ∷ pipelines) handler context) (
        seen-wrap (λ e. lib.wrap_error e (text "error handling consumer handlers pipeline"))
          (nested (pipe ∷ pipelines) handler context) w)

  run_handlers_with_retry-tries :
      (r : RabbitMqConsumer W M E) (handler : ConsumerHandler W M E)
      (context : MessageConsumeContext M) (w : W)
      → seen (run_handlers_with_retry lib r handler context w)
        ≡ tries 2 (λ w'. seen (nested r.pipelines handler context w')) w
  unfolding run_handlers_with_retry
  run_handlers_with_retry-tries r handler context w =
      retry-tries 2 (attempt lib r.pipelines handler context) w
      ∙ ap (λ m. tries 2 m w) (fun_ext (attempt-nested r.pipelines handler context))

  pub run_handlers-serve :
      (r : RabbitMqConsumer W M E) (handlers : List (ConsumerHandler W M E))
      (context : MessageConsumeContext M) (w : W)
      → seen (run_handlers lib r handlers context w) ≡ serve r.pipelines handlers context w
  unfolding run_handlers
  run_handlers-serve r [] context w = refl
  run_handlers-serve r (handler ∷ handlers) context w =
      seen->> (run_handlers_with_retry lib r handler context) (run_handlers lib r handlers context)
        w
      ∙ ap (λ rest. and_next rest (seen (run_handlers_with_retry lib r handler context w)))
          (fun_ext (run_handlers-serve r handlers context))
      ∙ ap (and_next (serve r.pipelines handlers context))
          (run_handlers_with_retry-tries r handler context w)
