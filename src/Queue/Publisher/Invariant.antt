-- ===== src/Queue/Publisher/Invariant.antt =====
-- What holds of the publisher after any sequence of events.
use scribeflow.Prelude.{
  ℕ, zero, suc, ◌≤◌, ◌≡◌, ◌≢◌, ◌⊎◌, inl, inr, Bool, true, false, ◌&&◌, List, [], ◌∷◌, Option, none,
  some, arith, All, Option-cases, Bool-cases,
}
use scribeflow.Queue.Publisher.{
  Phase, dialing, declaring, closing, sleeping, Task, starting, reconnecting, failed, System,
  contains, without, spawn, reconnect_forever, on_connection_close, close_connection,
  on_channel_close, asleep, finish, wake, at, phase_of, advance, pick, Event, resumes,
  connection_closes, channel_closes, destroys, step, run, init,
}

-- The attempts of `connectWithRetry` are numbered from 1 to 30.
abbrev pub InRange : Task → Type 0
InRange (starting attempt phase) = (1 ≤ attempt) × (attempt ≤ 30)
InRange (reconnecting phase) = Unit {0}

-- The connection is one that is open.
abbrev pub IsLive : List ℕ → Option ℕ → Type 0
IsLive live none = Unit {0}
IsLive live (some c) = contains live c ≡ true

-- Somebody works on getting a channel: a task is there, or the connection that lost its channel is
-- still there, whose close starts a task; unless the channel is there, the service shuts down, or
-- its start has failed.
abbrev pub IsRecovering : System → Type 0
IsRecovering s =
    (s.publisher.channel ≢ none)
    ⊎ ((s.publisher.shutting_down ≡ true)
        ⊎ ((s.startup ≡ failed) ⊎ ((s.tasks ≢ []) ⊎ (s.publisher.connection ≢ none))))

-- What holds also while a task is taken out.
record Base (s : System) : Type 0 where
  own_channel : (s.publisher.channel ≡ none) ⊎ (s.publisher.channel ≡ s.publisher.connection)
  own_connection : IsLive s.live s.publisher.connection
  in_range : All InRange s.tasks

-- The channel is one of the current connection, which is open; the attempts are in range; and
-- somebody works on getting a channel back.
pub record Inv (s : System) : Type 0 where
  pub own_channel : (s.publisher.channel ≡ none) ⊎ (s.publisher.channel ≡ s.publisher.connection)
  pub own_connection : IsLive s.live s.publisher.connection
  pub in_range : All InRange s.tasks
  pub recovering : IsRecovering s

Inv-Base : {s : System} → Inv s → Base s
Inv-Base v = record {
  own_channel = v.own_channel;
  own_connection = v.own_connection;
  in_range = v.in_range;
}

reconnect_forever-Inv : (s : System) → Base s → Inv (reconnect_forever s)
unfolding reconnect_forever
reconnect_forever-Inv s b = ground arith

spawn-Inv : (t : Task) (s : System) → InRange t → Base s → Inv (spawn t s)
spawn-Inv t s h b = ground arith

on_connection_close-Inv : (s : System) → All InRange s.tasks → Inv (on_connection_close s)
unfolding on_connection_close
on_connection_close-Inv s b = ground arith

close_connection-Inv : (c : ℕ) (s : System) → Inv s → Inv (close_connection c s)
unfolding close_connection
close_connection-Inv c s v =
    ground (arith, on_connection_close-Inv (record s { live = without c s.live }))

on_channel_close-Inv : (c : ℕ) (s : System) → Inv s → Inv (on_channel_close c s)
unfolding on_channel_close
on_channel_close-Inv c s v = ground arith

finish-Inv : (t : Task) (s : System) → Base s → s.publisher.channel ≢ none → Inv (finish t s)
unfolding finish
finish-Inv (starting attempt phase) s b h = ground arith
finish-Inv (reconnecting phase) s b h = reconnect_forever-Inv s b

wake-Inv : (t : Task) (s : System) → InRange t → Base s → Inv (wake t s)
unfolding wake
wake-Inv (starting attempt phase) s h b = ground arith
wake-Inv (reconnecting phase) s h b = reconnect_forever-Inv s b

InRange-at : (t : Task) (phase : Phase) → InRange t → InRange (at t phase)
InRange-at (starting attempt phase) phase' h = h
InRange-at (reconnecting phase) phase' h = h

InRange-asleep : (t : Task) → InRange t → InRange (asleep t)
InRange-asleep (starting attempt phase) h = h
InRange-asleep (reconnecting phase) h = h

IsLive-cons : (n : ℕ) (live : List ℕ) (o : Option ℕ) → IsLive live o → IsLive (n ∷ live) o
IsLive-cons n live none h = tt
IsLive-cons n live (some c) h = ground arith

open_next-Base :
    (s : System) → Base s → Base (record s { live = s.next ∷ s.live; next = suc s.next })
open_next-Base s b = record {
  own_channel = b.own_channel;
  own_connection = IsLive-cons s.next s.live s.publisher.connection b.own_connection;
  in_range = b.in_range;
}

advance-Inv :
    (phase : Phase) (t : Task) (ok : Bool) (s : System)
    → InRange t
    → Base s
    → Inv (advance phase t ok s)
unfolding advance
advance-Inv dialing t true s h b =
    spawn-Inv (at t (declaring s.next)) (record s { live = s.next ∷ s.live; next = suc s.next })
      (InRange-at t (declaring s.next) h) (open_next-Base s b)
advance-Inv dialing t false s h b = spawn-Inv (asleep t) s (InRange-asleep t h) b
advance-Inv (declaring c) t ok s h b = elim (Bool-cases (ok && contains s.live c)) [
  | inl e ↦
      let adopted : System = record s {
        publisher = record s.publisher { connection = some c; channel = some c };
      } in
      rw e (finish-Inv t adopted (ground arith) (λ q. cc))
  | inr e ↦ rw e (spawn-Inv (at t (closing c)) s (InRange-at t (closing c) h) b)
]
advance-Inv (closing c) t ok s h b =
    close_connection-Inv c (spawn (asleep t) s) (spawn-Inv (asleep t) s (InRange-asleep t h) b)
advance-Inv sleeping t ok s h b = wake-Inv t s h b

pick-All :
    (P : Task → Type 0) (n : ℕ) (ts : List Task) (t : Task) (us : List Task)
    → pick n ts ≡ some (t, us)
    → All P ts
    → P t × All P us
unfolding pick
pick-All P n [] t us e h = cc
pick-All P zero (u ∷ ts) t us e h = ground arith
pick-All P (suc n) (u ∷ ts) t us e (h, hs) = elim (Option-cases (pick n ts)) [
  | inl q ↦ absurd (ground arith)
  | inr ((v, vs), q) ↦ let (p, ps) = pick-All P n ts v vs q hs in ground arith
]

-- Every event keeps the invariant.
pub step-Inv : (e : Event) (s : System) → Inv s → Inv (step e s)
unfolding step
step-Inv (resumes n ok) s v = elim (Option-cases (pick n s.tasks)) [
  | inl q ↦ rw (q, step) v
  | inr ((t, ts), q) ↦
      let (h, hs) = pick-All InRange n s.tasks t ts q v.in_range in
      rw (q, step) (advance-Inv (phase_of t) t ok (record s { tasks = ts }) h (ground arith))
]
step-Inv (connection_closes c) s v = close_connection-Inv c s v
step-Inv (channel_closes c) s v = on_channel_close-Inv c s v
step-Inv destroys s v = ground arith

-- After any sequence of events since the start: the channel that `isConnected` looks at belongs to
-- the current connection, and that is open; `connectWithRetry` is at one of its attempts 1 to 30;
-- and without a channel, unless the service shuts down or its start has failed, a task or the
-- pending close of the connection that lost its channel is there to get one.
pub run-Inv : (es : List Event) → Inv (run es init)
unfolding run
run-Inv es = kept es init start
  where
    start : Inv init
    start = ground arith

    kept : (es : List Event) (s : System) → Inv s → Inv (run es s)
    kept [] s v = v
    kept (e ∷ es) s v = kept es (step e s) (step-Inv e s v)
