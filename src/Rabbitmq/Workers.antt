-- ===== src/Rabbitmq/Workers.antt =====
-- The goroutines of a consumer (rabbitmq_consumer.go): the workers that `Start` runs, the slots of
-- `deliveryRoutines` that `handleReceived` takes and gives back, and `Stop`. The scheduler may take any
-- step that is open; a worker of a lost connection is not told from one of the next. What a worker does with a delivery is `handle_received` of the module Consumer.
use go_ecommerce_microservic.Common.{
  ℕ, suc, ◌+◌, ◌≤◌, ◌<◌, ◌≡◌, refl, Bool, true, false, subst, arith,
}

-- How many workers wait for a delivery, have taken one and wait for a slot, and hold a slot and handle
-- theirs; the messages in `deliveryRoutines`; and whether `Stop` has closed the channel.
pub record Workers : Type 0 where
  pub idle : ℕ
  pub waiting : ℕ
  pub handling : ℕ
  pub delivery_routines : ℕ
  pub closed : Bool

-- The steps of a consumer whose `ConcurrencyLimit` is `limit`.
pub data Step (limit : ℕ) : Workers → Workers → Type 0 where
  -- `Start`, of the bus or after a lost connection: as many workers as the limit
  start : (w : Workers) → Step limit w (record w { idle = w.idle + limit; closed = false })
  -- `msg, ok := <-msgs`
  receive :
      (idle waiting handling slots : ℕ)
      → Step limit
          (record {
            idle = suc idle;
            waiting = waiting;
            handling = handling;
            delivery_routines = slots;
            closed = false;
          })
          (record {
            idle = idle;
            waiting = suc waiting;
            handling = handling;
            delivery_routines = slots;
            closed = false;
          })
  -- `r.deliveryRoutines <- struct{}{}`: the channel has room for `limit` messages
  acquire :
      (idle waiting handling slots : ℕ) (closed : Bool)
      → slots < limit
      → Step limit
          (record {
            idle = idle;
            waiting = suc waiting;
            handling = handling;
            delivery_routines = slots;
            closed = closed;
          })
          (record {
            idle = idle;
            waiting = waiting;
            handling = suc handling;
            delivery_routines = suc slots;
            closed = closed;
          })
  -- the deferred `<-r.deliveryRoutines`, at the end of `handleReceived`
  release :
      (idle waiting handling slots : ℕ) (closed : Bool)
      → Step limit
          (record {
            idle = idle;
            waiting = waiting;
            handling = suc handling;
            delivery_routines = suc slots;
            closed = closed;
          })
          (record {
            idle = suc idle;
            waiting = waiting;
            handling = handling;
            delivery_routines = slots;
            closed = closed;
          })
  -- `Stop` has found `len(r.deliveryRoutines) == 0`, and closes the channel
  stop :
      (idle waiting handling : ℕ) (closed : Bool)
      → Step limit
          (record {
            idle = idle;
            waiting = waiting;
            handling = handling;
            delivery_routines = 0;
            closed = closed;
          })
          (record {
            idle = idle;
            waiting = waiting;
            handling = handling;
            delivery_routines = 0;
            closed = true;
          })
  -- `!ok`: after `Stop`, or when the connection is lost, or the context's end
  leave :
      (idle waiting handling slots : ℕ) (closed : Bool)
      → Step limit
          (record {
            idle = suc idle;
            waiting = waiting;
            handling = handling;
            delivery_routines = slots;
            closed = closed;
          })
          (record {
            idle = idle;
            waiting = waiting;
            handling = handling;
            delivery_routines = slots;
            closed = closed;
          })

-- A consumer that was made and not started.
abbrev pub new_workers : Workers
new_workers = record { idle = 0; waiting = 0; handling = 0; delivery_routines = 0; closed = false }

pub data Reachable (limit : ℕ) : Workers → Type 0 where
  initial : Reachable limit new_workers
  after : {w w' : Workers} → Reachable limit w → Step limit w w' → Reachable limit w'

abbrev pub IsBounded : ℕ → Workers → Type 0
IsBounded limit w = (w.delivery_routines ≡ w.handling) × (w.handling ≤ limit)

Step-IsBounded :
    (limit : ℕ) {w w' : Workers} → Step limit w w' → IsBounded limit w → IsBounded limit w'
Step-IsBounded limit (start w) h = h
Step-IsBounded limit (receive idle waiting handling slots) h = h
Step-IsBounded limit (acquire idle waiting handling slots closed room) h =
    (omega (arith, h.0), omega (arith, h.0, h.1, room))
Step-IsBounded limit (release idle waiting handling slots closed) h =
    (omega (arith, h.0), omega (arith, h.1))
Step-IsBounded limit (stop idle waiting handling closed) h = h
Step-IsBounded limit (leave idle waiting handling slots closed) h = h

-- Whatever the scheduler does, and however often a consumer starts again, the slots that are taken are
-- those of the deliveries that are being handled, and these are never more than the concurrency limit.
pub Reachable-IsBounded : (limit : ℕ) {w : Workers} → Reachable limit w → IsBounded limit w
Reachable-IsBounded limit initial = (refl, ground arith)
Reachable-IsBounded limit (after r step) = Step-IsBounded limit step (Reachable-IsBounded limit r)

abbrev all_idle : ℕ → Workers
all_idle n = record { idle = n; waiting = 0; handling = 0; delivery_routines = 0; closed = false }

started : (limit : ℕ) → Reachable limit (all_idle limit)
started limit =
    let idle : 0 + limit ≡ limit = omega arith in
    subst (λ n. Reachable limit (all_idle n)) idle (after initial (start new_workers))

abbrev one_late : ℕ → Workers
one_late limit = record {
  idle = limit;
  waiting = 0;
  handling = 1;
  delivery_routines = 1;
  closed = true;
}

-- With any limit that admits a worker, `Stop` can close the channel while a worker that has taken a
-- delivery has no slot yet, so that the delivery is handled after `Stop` has returned.
pub Reachable-handling_after_stop :
    (limit : ℕ) → (w : Workers) × Reachable (suc limit) w × (w.closed ≡ true) × (w.handling ≡ 1)
Reachable-handling_after_stop limit = (
  one_late limit,
  after (after (after (started (suc limit)) (receive limit 0 0 0)) (stop limit 1 0 false))
      (acquire limit 0 0 0 true (ground arith)),
  refl,
  refl,
)
