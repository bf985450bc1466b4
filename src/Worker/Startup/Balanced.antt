-- ===== src/Worker/Startup/Balanced.antt =====
-- What the worker has open at each of its calls.
use scribeflow.Prelude.{
  ℕ, zero, suc, ◌+◌, ◌≤◌, ◌≡◌, refl, ◌∙◌, ◌&&◌, List, [], ◌∷◌, ◌++◌, Option, none, some, arith, leb,
  if◌then◌else◌,
}
use scribeflow.Text.{Text, codes}
use scribeflow.Worker.Handler.{Outcome, value, exception, died}
use scribeflow.Worker.Transcriber.{Trace, lifted, ◌>>=◌}
use scribeflow.Worker.Startup.{
  Server, postgres, rabbitmq, Call, tries, opened, sleeps, opens_channel, sets_qos, declares,
  consumes, cancels, waits_in_flight, closes, Endings, called, attempt_or, connect_from, connect,
  connect_with_retry, after_close, with_close, session, run,
}

-- Nothing is open before an attempt at postgres, postgres alone before one at rabbitmq, and both at
-- any other call; the last that was opened is closed first.
abbrev pub turn : ℕ → List Server → Call → Option (List Server)
turn max stack sleeps = some stack
turn max [] (tries postgres k) = if leb 1 k && leb k max then some [] else none
turn max (postgres ∷ []) (tries rabbitmq k) =
    if leb 1 k && leb k max then some (postgres ∷ []) else none
turn max stack (tries _ _) = none
turn max stack (opened server) = some (server ∷ stack)
turn max (postgres ∷ stack) (closes postgres) = some stack
turn max (rabbitmq ∷ stack) (closes rabbitmq) = some stack
turn max stack (closes _) = none
turn max (rabbitmq ∷ postgres ∷ []) call = some (rabbitmq ∷ postgres ∷ [])
turn max stack call = none

abbrev pub or_none :
    Option (List Server) → (List Server → Option (List Server)) → Option (List Server)
or_none none f = none
or_none (some stack) f = f stack

-- What is open behind some calls; none if one of them is out of turn.
unfoldable pub held : ℕ → List Server → List Call → Option (List Server)
held max stack [] = some stack
held max stack (call ∷ calls) = or_none (turn max stack call) (λ later. held max later calls)

module _ (max : ℕ) where
  held-append :
      (stack : List Server) (calls later : List Call)
      → held max stack (calls ++ later) ≡ or_none (held max stack calls) (λ o. held max o later)
  unfolding held
  held-append stack [] later = refl
  held-append stack (call ∷ calls) later =
      elim (turn max stack call)
        as (λ next.
          or_none next (λ o. held max o (calls ++ later))
          ≡ or_none (or_none next (λ o. held max o calls)) (λ o. held max o later)) [
            | none ↦ refl
            | some o ↦ held-append o calls later
          ]

  -- The calls of a trace come in turn, and lead from `before` to `returned` if it returns, and to
  -- `raised` if it raises.
  abbrev pub Leads : {A : Type 0} → List Server → List Server → List Server → Trace Call A → Type 0
  Leads before returned raised (calls, value a) = held max before calls ≡ some returned
  Leads before returned raised (calls, exception e) = held max before calls ≡ some raised
  Leads before returned raised (calls, died) =
      (rest : List Server) × (held max before calls ≡ some rest)

  held_through :
      (before middle : List Server) (calls later : List Call)
      → held max before calls ≡ some middle
      → held max before (calls ++ later) ≡ held max middle later
  held_through before middle calls later h = rw (held-append before calls later, h) refl

  Leads-append :
      {A : Type 0} (before middle returned raised : List Server) (calls : List Call)
      (t : Trace Call A)
      → held max before calls ≡ some middle
      → Leads middle returned raised t
      → Leads before returned raised (calls ++ t.0, t.1)
  Leads-append before middle returned raised calls (later, value a) h k =
      held_through before middle calls later h ∙ k
  Leads-append before middle returned raised calls (later, exception e) h k =
      held_through before middle calls later h ∙ k
  Leads-append before middle returned raised calls (later, died) h (rest, k) =
      (rest, held_through before middle calls later h ∙ k)

  Leads-bind :
      {A B : Type 0} (before middle returned raised : List Server) (t : Trace Call A)
      (f : A → Trace Call B)
      → Leads before middle raised t
      → ((a : A) → Leads middle returned raised (f a))
      → Leads before returned raised (t >>= f)
  Leads-bind before middle returned raised (calls, value a) f h k =
      Leads-append before middle returned raised calls (f a) h (k a)
  Leads-bind before middle returned raised (calls, exception e) f h k = h
  Leads-bind before middle returned raised (calls, died) f h k = h

  held_closed :
      (server : Server) (before stack : List Server) (calls : List Call)
      → turn max (server ∷ stack) (closes server) ≡ some stack
      → held max before calls ≡ some (server ∷ stack)
      → held max before (calls ++ closes server ∷ []) ≡ some stack
  unfolding held
  held_closed server before stack calls e h =
      held_through before (server ∷ stack) calls (closes server ∷ []) h ∙ rw e refl

  Leads-after_close :
      {A : Type 0} (before stack : List Server) (calls : List Call) (outcome : Outcome A)
      (close : Outcome (Unit {0}))
      → held max before calls ≡ some stack
      → Leads before stack stack (calls, after_close outcome close)
  Leads-after_close before stack calls (value a) (value b) h = h
  Leads-after_close before stack calls (exception e) (value b) h = h
  Leads-after_close before stack calls died (value b) h = (stack, h)
  Leads-after_close before stack calls outcome (exception e) h = h
  Leads-after_close before stack calls outcome died h = (stack, h)

  -- Closing a server gives it back, however the body ends.
  Leads-with_close :
      {A : Type 0} (server : Server) (stack : List Server) (close : Outcome (Unit {0}))
      (t : Trace Call A)
      → turn max (server ∷ stack) (closes server) ≡ some stack
      → Leads (server ∷ stack) (server ∷ stack) (server ∷ stack) t
      → Leads (server ∷ stack) stack stack (with_close server close t)
  Leads-with_close server stack close (calls, value a) e h =
      Leads-after_close (server ∷ stack) stack (calls ++ closes server ∷ []) (value a) close
        (held_closed server (server ∷ stack) stack calls e h)
  Leads-with_close {A = A} server stack close (calls, exception x) e h =
      Leads-after_close {A = A} (server ∷ stack) stack (calls ++ closes server ∷ []) (exception x)
        close (held_closed server (server ∷ stack) stack calls e h)
  Leads-with_close server stack close (calls, died) e h = h

  Leads-attempts :
      (server : Server) (stack : List Server) (label : Text) (ends : ℕ → Outcome (Unit {0}))
      (left attempt : ℕ) (last_error : Option Text)
      → ((k : ℕ) → 1 ≤ k → k ≤ max → turn max stack (tries server k) ≡ some stack)
      → 1 ≤ attempt
      → attempt + left ≡ max + 1
      → Leads stack (server ∷ stack) stack (connect_from server label ends left attempt last_error)
  unfolding connect_from held
  Leads-attempts server stack label ends zero attempt last_error e low total = refl
  Leads-attempts server stack label ends (suc left) attempt last_error e low total =
      let here = e attempt low (omega arith) in
      elim (ends attempt)
        as (λ ending. Leads stack (server ∷ stack) stack (
          attempt_or server attempt ending
            (λ x. connect_from server label ends left (attempt + 1) (some x)))) [
              | value a ↦ rw here refl
              | exception x ↦
                  Leads-append stack stack (server ∷ stack) stack
                    (tries server attempt ∷ sleeps ∷ [])
                    (connect_from server label ends left (attempt + 1) (some x)) (rw here refl)
                    (Leads-attempts server stack label ends left (attempt + 1) (some x) e
                      (omega arith) (omega arith))
              | died ↦ (stack, rw here refl)
            ]

  abbrev both : List Server
  both = rabbitmq ∷ postgres ∷ []

  Leads-called :
      {A : Type 0} (call : Call) (outcome : Outcome A)
      → turn max both call ≡ some both
      → Leads both both both (called call outcome)
  unfolding held
  Leads-called call (value a) e = rw e refl
  Leads-called call (exception x) e = rw e refl
  Leads-called call died e = (both, rw e refl)

  Leads-lifted : {A : Type 0} (outcome : Outcome A) → Leads both both both (lifted outcome)
  unfolding held
  Leads-lifted (value a) = refl
  Leads-lifted (exception x) = refl
  Leads-lifted died = (both, refl)

  Leads-call :
      {A B : Type 0} (call : Call) (outcome : Outcome A) (f : A → Trace Call B)
      → turn max both call ≡ some both
      → ((a : A) → Leads both both both (f a))
      → Leads both both both (called call outcome >>= f)
  Leads-call call outcome f e h =
      Leads-bind both both both both (called call outcome) f (Leads-called call outcome e) h

  Leads-session : (endings : Endings) → Leads both both both (session endings)
  unfolding session held
  Leads-session endings = Leads-call opens_channel endings.channel _ refl (λ _.
      Leads-call (sets_qos 1) endings.qos _ refl (λ _.
        Leads-call declares endings.topology _ refl (λ _.
          Leads-call consumes endings.consume _ refl (λ _.
            Leads-bind both both both both (lifted endings.stop) _ (Leads-lifted endings.stop) (λ _.
              Leads-call cancels endings.cancel _ refl
                (λ _. Leads-call waits_in_flight endings.finishes _ refl (λ _. refl)))))))

  Leads-connect : (endings : Endings) → Leads [] (postgres ∷ []) [] (connect max endings)
  unfolding connect
  Leads-connect endings =
      Leads-attempts postgres [] (codes "could not connect to postgres: ") endings.create_pool max 1
        none (λ k low high. ground arith) (omega arith) (omega arith)

  Leads-connect_with_retry :
      (endings : Endings)
      → Leads (postgres ∷ []) both (postgres ∷ []) (connect_with_retry max endings)
  unfolding connect_with_retry
  Leads-connect_with_retry endings =
      Leads-attempts rabbitmq (postgres ∷ []) (codes "could not connect to rabbitmq: ")
        endings.connect_robust max 1 none (λ k low high. ground arith) (omega arith) (omega arith)

  -- However the calls of a run end: an attempt at a server has a number from 1 to the limit; an attempt
  -- at RabbitMQ comes only while the pool of postgres is open, and the calls of the session, the
  -- consuming of messages among them, only while both are open; what was opened last is closed first;
  -- and when the run returns or raises, all that it opened has been closed. A run in which the worker
  -- is killed may leave something open.
  pub run-Leads : (endings : Endings) → Leads [] [] [] (run max endings)
  unfolding run
  run-Leads endings =
      Leads-bind [] (postgres ∷ []) [] [] (connect max endings) _ (Leads-connect endings) (λ _.
        Leads-with_close postgres [] endings.close_pool _ refl (
          Leads-bind (postgres ∷ []) both (postgres ∷ []) (postgres ∷ [])
            (connect_with_retry max endings) _ (Leads-connect_with_retry endings)
            (λ _.
              Leads-with_close rabbitmq (postgres ∷ []) endings.close_connection _ refl
                (Leads-session endings))))
