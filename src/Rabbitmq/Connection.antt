-- ===== src/Rabbitmq/Connection.antt =====
-- internal/pkg/rabbitmq/types/connection.go: the connection to the broker, with the goroutine of each
-- connection that waits for its end, and the goroutine of `handleReconnecting`. What `amqp091.Dial` answers
-- is a parameter; channels of the broker and logs are left out.
pub mod Tokens
pub mod Reconnecting
mod Tests
use go_ecommerce_microservic.Common.{
  ℕ, suc, ◌+◌, Bool, true, false, Text, text, ◌++◌, ◌≡◌, Option, none, some, Outcome, ok, err,
  if◌then◌else◌,
}
use go_ecommerce_microservic.HttpErrors.Chain.{GoError, leaf, annotated}

-- Where `handleReconnecting` is: not started, at its `select`, before its call of `connect`, after one that has
-- succeeded, or sending to `reconnectedChan`.
pub data Loop : Type 0 where
  not_started : Loop
  selecting : Loop
  dialing : Loop
  connected : Loop
  notifying : Loop

-- `internalConnection`: whether it says that it is connected; whether its connection is open; how many
-- connections are open that another has replaced, how many goroutines have read the end of theirs, and how many
-- of these wait to send to `errConnectionChan`, which is unbuffered. With it, the goroutines of the consumers,
-- `reConsumeOnDropConnection`: how many wait to receive from `reconnectedChan`, which is unbuffered too, and
-- how many have received and start their consumer again.
pub record Link : Type 0 where
  pub is_connected : Bool
  pub is_open : Bool
  pub replaced : ℕ
  pub ended : ℕ
  pub sending : ℕ
  pub loop : Loop
  pub listening : ℕ
  pub restarting : ℕ

abbrev pub one_if : Bool → ℕ
one_if true = 1
one_if false = 0

abbrev pub wait_for_end : Link → Link
wait_for_end l = record l {
  is_connected = true;
  is_open = true;
  replaced = l.replaced + one_if l.is_open;
}

-- `dialed` is the error of `amqp091.Dial`, if there is one.
unfoldable pub connect : Text → Option GoError → Link → Option GoError × Link
connect end_point none l = (none, wait_for_end l)
connect end_point (some e) l =
    (some (annotated (text "Error in connecting to rabbitmq with host: " ++ end_point) e), l)

abbrev pub re_connect : Text → Option GoError → Link → Option GoError × Link
re_connect end_point dialed l =
    let connected = connect end_point dialed l in if l.is_open then (none, l) else connected

abbrev pub unconnected : Link
unconnected = record {
  is_connected = false;
  is_open = false;
  replaced = 0;
  ended = 0;
  sending = 0;
  loop = not_started;
  listening = 0;
  restarting = 0;
}

abbrev pub start_loop : Bool → Link → Link
start_loop true l = record l { loop = selecting }
start_loop false l = l

abbrev pub constructed : Bool → Option GoError × Link → Outcome GoError Link
constructed reconnecting (none, l) = ok (start_loop reconnecting l)
constructed reconnecting (some e, l) = err e

-- `AmqpEndPoint()` of the host's options, if there are any, and the option `Reconnecting`.
unfoldable pub new_rabbit_mq_connection : Option Text → Bool → Option GoError → Outcome GoError Link
new_rabbit_mq_connection none reconnecting dialed = err (leaf (text "rabbitmq host options is nil"))
new_rabbit_mq_connection (some end_point) reconnecting dialed =
    constructed reconnecting (connect end_point dialed unconnected)

-- `handleReconnecting` after its call of `connect`: back to the `select` after an error.
abbrev pub after_connect : Option GoError × Link → Link
after_connect (none, l) = record l { loop = connected }
after_connect (some e, l) = record l { loop = selecting }

-- The steps of the broker and the goroutines. A goroutine always sends an error: the one of a
-- connection that was closed on purpose is a nil pointer in an interface, which is not nil.
-- With `reliable` no dial fails.
pub data Step (end_point : Text) (reliable : Bool) : Link → Link → Type 0 where
  -- the connection is lost or closed
  lose :
      (l : Link)
      → l.is_open ≡ true
      → Step end_point reliable l (record l { is_open = false; ended = suc l.ended })
  lose_replaced :
      (l : Link) (n : ℕ)
      → l.replaced ≡ suc n
      → Step end_point reliable l (record l { replaced = n; ended = suc l.ended })
  -- `c.isConnected = false`, and the goroutine sends
  mark :
      (l : Link) (n : ℕ)
      → l.ended ≡ suc n
      → Step end_point reliable l
          (record l { is_connected = false; ended = n; sending = suc l.sending })
  -- `err := <-c.errConnectionChan`
  receive :
      (l : Link) (n : ℕ)
      → l.loop ≡ selecting
      → l.sending ≡ suc n
      → Step end_point reliable l (record l { sending = n; loop = dialing })
  dial :
      (l : Link)
      → l.loop ≡ dialing
      → Step end_point reliable l (after_connect (connect end_point none l))
  dial_failed :
      (l : Link) (e : GoError)
      → reliable ≡ false
      → l.loop ≡ dialing
      → Step end_point reliable l (after_connect (connect end_point (some e) l))
  -- the second `c.isConnected = true`
  assign :
      (l : Link)
      → l.loop ≡ connected
      → Step end_point reliable l (record l { is_connected = true; loop = notifying })
  -- `c.reconnectedChan <- struct{}{}`, which a goroutine of a consumer receives
  notify :
      (l : Link) (n : ℕ)
      → l.loop ≡ notifying
      → l.listening ≡ suc n
      → Step end_point reliable l
          (record l { loop = selecting; listening = n; restarting = suc l.restarting })
  -- `Start` of the consumer runs a new goroutine; the old one ends, or goes on if `Start` has failed
  restarted :
      (l : Link) (n : ℕ)
      → l.restarting ≡ suc n
      → Step end_point reliable l (record l { listening = suc l.listening; restarting = n })
  restart_failed :
      (l : Link) (n : ℕ)
      → l.restarting ≡ suc n
      → Step end_point reliable l (record l { listening = suc (suc l.listening); restarting = n })
  -- a consumer is started for the first time
  consume : (l : Link) → Step end_point reliable l (record l { listening = suc l.listening })

pub data Steps (end_point : Text) (reliable : Bool) : Link → Link → Type 0 where
  done : (l : Link) → Steps end_point reliable l l
  next :
      {l l' l'' : Link}
      → Step end_point reliable l l'
      → Steps end_point reliable l' l''
      → Steps end_point reliable l l''
