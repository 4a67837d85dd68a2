-- ===== src/Rabbitmq/Connection/Reconnecting.antt =====
-- When a lost connection comes back (internal/pkg/rabbitmq/types/connection.go).
use go_ecommerce_microservic.Common.{
  ℕ, zero, suc, ◌+◌, ◌≤◌, ◌≡◌, refl, sym, ap, subst, Bool, true, false, Text, none, some, Outcome,
  ok, arith,
}
use go_ecommerce_microservic.HttpErrors.Chain.{GoError}
use go_ecommerce_microservic.Rabbitmq.Connection.{
  Loop, not_started, selecting, dialing, connected, notifying, Link, one_if, connect, after_connect,
  new_rabbit_mq_connection, Step, lose_replaced, mark, receive, dial, assign, notify, restarted,
  Steps, done, next,
}
use go_ecommerce_microservic.Rabbitmq.Connection.Tokens.{
  dials, is_running, tokens, IsQuiet, IsSound, closed_if, Step-IsSound, Steps-IsSound,
  Steps-IsQuiet, Step-tokens, Steps-tokens,
}

module _ (end_point : Text) where
  -- The connection comes back by some steps.
  abbrev pub ComesBack : Link → Type 0
  ComesBack l =
      (l' : Link) × Steps end_point true l l' × (l'.is_open ≡ true) × (l'.is_connected ≡ true)

  prepend : {l l' : Link} → Step end_point true l l' → ComesBack l' → ComesBack l
  prepend step back = (back.0, next step back.1, back.2, back.3)

  dialing-ComesBack : (l : Link) → l.loop ≡ dialing → ComesBack l
  unfolding connect
  dialing-ComesBack l h = (_, next (dial l h) (done _), refl, refl)

  sending-ComesBack : (l : Link) (n : ℕ) → l.loop ≡ selecting → l.sending ≡ suc n → ComesBack l
  sending-ComesBack l n h h' = prepend (receive l n h h') (dialing-ComesBack _ refl)

  ended-ComesBack : (l : Link) (n : ℕ) → l.loop ≡ selecting → l.ended ≡ suc n → ComesBack l
  ended-ComesBack l n h h' = prepend (mark l n h') (sending-ComesBack _ l.sending h refl)

  replaced-ComesBack : (l : Link) (n : ℕ) → l.loop ≡ selecting → l.replaced ≡ suc n → ComesBack l
  replaced-ComesBack l n h h' = prepend (lose_replaced l n h') (ended-ComesBack _ l.ended h refl)

  closed-ComesBack :
      (l : Link) (replaced ended sending : ℕ)
      → l.loop ≡ selecting
      → l.is_open ≡ false
      → l.replaced ≡ replaced
      → l.ended ≡ ended
      → l.sending ≡ sending
      → tokens l ≡ 1
      → ComesBack l
  closed-ComesBack l (suc n) ended sending h c r e s t = replaced-ComesBack l n h r
  closed-ComesBack l zero (suc n) sending h c r e s t = ended-ComesBack l n h e
  closed-ComesBack l zero zero (suc n) h c r e s t = sending-ComesBack l n h s
  closed-ComesBack l zero zero zero h c r e s t =
      absurd (omega (arith, t, ap one_if c, r, e, s, ap dials h))

  selecting-ComesBack :
      (l : Link) (is_open : Bool)
      → l.loop ≡ selecting
      → l.is_open ≡ is_open
      → IsSound l
      → tokens l ≡ 1
      → ComesBack l
  selecting-ComesBack l true h o s t = (l, done l, o, s.shown o)
  selecting-ComesBack l false h o s t = closed-ComesBack l _ _ _ h o refl refl refl t

  notified-ComesBack :
      (l : Link) (n : ℕ)
      → l.loop ≡ notifying
      → l.listening ≡ suc n
      → IsSound l
      → tokens l ≡ 1
      → ComesBack l
  notified-ComesBack l n h r s t =
      let step = notify l n h r in
      prepend step (
        selecting-ComesBack _ l.is_open refl refl (Step-IsSound end_point true step s)
          (Step-tokens end_point step t))

  -- A goroutine of a consumer receives, if need be after it has started its consumer again.
  notifying-ComesBack :
      (l : Link) (listening restarting : ℕ)
      → l.listening ≡ listening
      → l.restarting ≡ restarting
      → l.loop ≡ notifying
      → 1 ≤ l.listening + l.restarting
      → IsSound l
      → tokens l ≡ 1
      → ComesBack l
  notifying-ComesBack l (suc n) restarting a b h c s t = notified-ComesBack l n h a s t
  notifying-ComesBack l zero (suc n) a b h c s t =
      let step = restarted l n b in
      prepend step (
        notified-ComesBack _ l.listening h refl (Step-IsSound end_point true step s)
          (Step-tokens end_point step t))
  notifying-ComesBack l zero zero a b h c s t = absurd (omega (arith, a, b, c))

  loop-ComesBack :
      (l : Link) (loop : Loop)
      → l.loop ≡ loop
      → 1 ≤ l.listening + l.restarting
      → IsSound l
      → tokens l ≡ 1
      → ComesBack l
  loop-ComesBack l not_started h c s t =
      absurd (omega (arith, ap one_if (ap is_running h), ap one_if s.running))
  loop-ComesBack l selecting h c s t = selecting-ComesBack l l.is_open h refl s t
  loop-ComesBack l dialing h c s t = dialing-ComesBack l h
  loop-ComesBack l connected h c s t =
      let step = assign l h in
      prepend step (
        notifying-ComesBack _ l.listening l.restarting refl refl refl c
          (Step-IsSound end_point true step s) (Step-tokens end_point step t))
  loop-ComesBack l notifying h c s t = notifying-ComesBack l _ _ refl refl h c s t

abbrev first_link : Link
first_link = record {
  is_connected = true;
  is_open = true;
  replaced = 0;
  ended = 0;
  sending = 0;
  loop = selecting;
  listening = 0;
  restarting = 0;
}

abbrev link_of : Outcome GoError Link → Link
link_of (ok l) = l
link_of _ = first_link

first_link-IsSound : IsSound first_link
first_link-IsSound = record {
  single = omega arith;
  shown = λ opened. refl;
  running = refl;
  whole = refl;
}

module _ (end_point : Text) {l : Link}
    (made : new_rabbit_mq_connection (some end_point) true none ≡ ok l) where
  made-first : first_link ≡ l
  unfolding new_rabbit_mq_connection connect
  made-first = ap link_of made

module _ (end_point : Text) {l l' : Link}
    (made : new_rabbit_mq_connection (some end_point) true none ≡ ok l) where
  -- At every time the connection is open or its end is on the way to the next dial, at most once; no
  -- open connection was replaced; and an open connection says that it is connected.
  pub connection-IsSound : (reliable : Bool) → Steps end_point reliable l l' → IsSound l'
  connection-IsSound reliable steps =
      Steps-IsSound end_point reliable steps
        (subst IsSound (made-first end_point made) first_link-IsSound)

  -- A connection that was made with the option for reconnecting comes back: from every state that it
  -- reaches without a failed dial, and in which there is a goroutine of a consumer that waits for the
  -- news or starts its consumer again, there are steps after which it is open and says that it is
  -- connected.
  pub connection-ComesBack :
      Steps end_point true l l' → 1 ≤ l'.listening + l'.restarting → ComesBack end_point l'
  connection-ComesBack steps consumers =
      loop-ComesBack end_point l' l'.loop refl consumers (connection-IsSound true steps)
        (Steps-tokens end_point steps (ap tokens (sym (made-first end_point made))))

  -- If one dial of `handleReconnecting` fails, in a connection that was made with the option for
  -- reconnecting, then after any further steps of the broker, the goroutines and the consumers the
  -- connection is closed and the loop is at its `select`: it never dials again.
  pub connection-failed_dial :
      (reliable : Bool) (e : GoError) {after : Link}
      → Steps end_point reliable l l'
      → l'.loop ≡ dialing
      → Steps end_point reliable (after_connect (connect end_point (some e) l')) after
      → (after.is_open ≡ false) × (after.loop ≡ selecting)
  unfolding connect
  connection-failed_dial reliable e {after = after} steps h later =
      let s = connection-IsSound reliable steps in
      let one = s.single in
      let quiet : IsQuiet (after_connect (connect end_point (some e) l')) =
        (omega (arith, one, ap dials h), refl) in
      let still = Steps-IsQuiet end_point reliable later quiet in
      (sym (closed_if after.is_open (omega (arith, still.0))), still.1)
