-- ===== src/Rabbitmq/Connection/Tokens.antt =====
-- What stays true of the connection in internal/pkg/rabbitmq/types/connection.go: one token, which is an open
-- connection or the end of one on its way to the loop that dials again.
use go_ecommerce_microservic.Common.{ℕ, ◌+◌, ◌≤◌, ◌≡◌, refl, ap, Bool, true, false, Text, arith}
use go_ecommerce_microservic.Rabbitmq.Connection.{
  Loop, not_started, selecting, dialing, Link, one_if, connect, Step, lose, lose_replaced, mark,
  receive, dial, dial_failed, assign, notify, restarted, restart_failed, consume, Steps, done, next,
}

abbrev pub dials : Loop → ℕ
dials dialing = 1
dials _ = 0

-- The open connections, those whose end is on its way to the loop, and the loop in its dial.
abbrev pub tokens : Link → ℕ
tokens l = one_if l.is_open + (l.replaced + (l.ended + (l.sending + dials l.loop)))

abbrev pub is_running : Loop → Bool
is_running not_started = false
is_running _ = true

pub record IsSound (l : Link) : Type 0 where
  pub single : tokens l ≤ 1
  pub shown : l.is_open ≡ true → l.is_connected ≡ true
  pub running : is_running l.loop ≡ true
  pub whole : l.replaced ≡ 0

abbrev selects : Loop → ℕ
selects selecting = 1
selects _ = 0

-- No open connection, none whose end is on its way, and the loop at its `select`.
abbrev pub IsQuiet : Link → Type 0
IsQuiet l = (tokens l ≡ 0) × (l.loop ≡ selecting)

pub closed_if : (b : Bool) → one_if b ≡ 0 → false ≡ b
closed_if true h = cc
closed_if false h = refl

module _ (end_point : Text) where
  pub Step-IsSound :
      (reliable : Bool) {l l' : Link} → Step end_point reliable l l' → IsSound l → IsSound l'
  unfolding connect
  Step-IsSound reliable (lose l h) s = record {
    single = omega (arith, s.single, ap one_if h);
    shown = λ opened. absurd (omega (arith, ap one_if opened));
    running = s.running;
    whole = s.whole;
  }
  Step-IsSound reliable (lose_replaced l n h) s = record {
    single = omega (arith, s.single, h);
    shown = s.shown;
    running = s.running;
    whole = absurd (omega (arith, s.whole, h));
  }
  Step-IsSound reliable (mark l n h) s = record {
    single = omega (arith, s.single, h);
    shown = λ opened. absurd (omega (arith, s.single, h, ap one_if opened));
    running = s.running;
    whole = s.whole;
  }
  Step-IsSound reliable (receive l n h h') s = record {
    single = omega (arith, s.single, ap dials h, h');
    shown = s.shown;
    running = refl;
    whole = s.whole;
  }
  Step-IsSound reliable (dial l h) s = record {
    single = omega (arith, s.single, ap dials h);
    shown = λ opened. refl;
    running = refl;
    whole = omega (arith, s.single, s.whole, ap dials h);
  }
  Step-IsSound reliable (dial_failed l e weak h) s = record {
    single = omega (arith, s.single, ap dials h);
    shown = s.shown;
    running = refl;
    whole = s.whole;
  }
  Step-IsSound reliable (assign l h) s = record {
    single = omega (arith, s.single, ap dials h);
    shown = λ opened. refl;
    running = refl;
    whole = s.whole;
  }
  Step-IsSound reliable (notify l n h h') s = record {
    single = omega (arith, s.single, ap dials h);
    shown = s.shown;
    running = refl;
    whole = s.whole;
  }
  Step-IsSound reliable (restarted l n h) s = record {
    single = s.single;
    shown = s.shown;
    running = s.running;
    whole = s.whole;
  }
  Step-IsSound reliable (restart_failed l n h) s = record {
    single = s.single;
    shown = s.shown;
    running = s.running;
    whole = s.whole;
  }
  Step-IsSound reliable (consume l) s = record {
    single = s.single;
    shown = s.shown;
    running = s.running;
    whole = s.whole;
  }

  pub Steps-IsSound :
      (reliable : Bool) {l l' : Link} → Steps end_point reliable l l' → IsSound l → IsSound l'
  Steps-IsSound reliable (done l) s = s
  Steps-IsSound reliable (next step steps) s =
      Steps-IsSound reliable steps (Step-IsSound reliable step s)

  -- With nothing open or on its way to the loop, which waits, this stays so.
  Step-IsQuiet :
      (reliable : Bool) {l l' : Link} → Step end_point reliable l l' → IsQuiet l → IsQuiet l'
  Step-IsQuiet reliable (lose l h) q = absurd (omega (arith, q.0, ap one_if h))
  Step-IsQuiet reliable (lose_replaced l n h) q = absurd (omega (arith, q.0, h))
  Step-IsQuiet reliable (mark l n h) q = absurd (omega (arith, q.0, h))
  Step-IsQuiet reliable (receive l n h h') q = absurd (omega (arith, q.0, h'))
  Step-IsQuiet reliable (dial l h) q = absurd (omega (arith, q.0, ap dials h))
  Step-IsQuiet reliable (dial_failed l e weak h) q = absurd (omega (arith, q.0, ap dials h))
  Step-IsQuiet reliable (assign l h) q = absurd (omega (arith, ap selects h, ap selects q.1))
  Step-IsQuiet reliable (notify l n h h') q = absurd (omega (arith, ap selects h, ap selects q.1))
  Step-IsQuiet reliable (restarted l n h) q = q
  Step-IsQuiet reliable (restart_failed l n h) q = q
  Step-IsQuiet reliable (consume l) q = q

  pub Steps-IsQuiet :
      (reliable : Bool) {l l' : Link} → Steps end_point reliable l l' → IsQuiet l → IsQuiet l'
  Steps-IsQuiet reliable (done l) q = q
  Steps-IsQuiet reliable (next step steps) q =
      Steps-IsQuiet reliable steps (Step-IsQuiet reliable step q)

  -- With no failed dial the only token stays.
  pub Step-tokens : {l l' : Link} → Step end_point true l l' → tokens l ≡ 1 → tokens l' ≡ 1
  unfolding connect
  Step-tokens (lose l h) t = omega (arith, t, ap one_if h)
  Step-tokens (lose_replaced l n h) t = omega (arith, t, h)
  Step-tokens (mark l n h) t = omega (arith, t, h)
  Step-tokens (receive l n h h') t = omega (arith, t, ap dials h, h')
  Step-tokens (dial l h) t = omega (arith, t, ap dials h)
  Step-tokens (dial_failed l e weak h) t = cc
  Step-tokens (assign l h) t = omega (arith, t, ap dials h)
  Step-tokens (notify l n h h') t = omega (arith, t, ap dials h)
  Step-tokens (restarted l n h) t = t
  Step-tokens (restart_failed l n h) t = t
  Step-tokens (consume l) t = t

  pub Steps-tokens : {l l' : Link} → Steps end_point true l l' → tokens l ≡ 1 → tokens l' ≡ 1
  Steps-tokens (done l) t = t
  Steps-tokens (next step steps) t = Steps-tokens steps (Step-tokens step t)
