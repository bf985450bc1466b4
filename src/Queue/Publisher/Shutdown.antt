-- ===== src/Queue/Publisher/Shutdown.antt =====
-- What the publisher's tasks still do once the service shuts down.
use scribeflow.Prelude.{
  ℕ, zero, suc, ◌+◌, ◌-◌, ◌*◌, ◌≤◌, ◌<◌, ◌≡◌, refl, ap, inl, inr, Bool, true, false, ◌&&◌, List, [],
  ◌∷◌, none, some, ltb, arith, if◌then◌else◌, Option-cases, Bool-cases, length,
}
use scribeflow.Queue.Publisher.{
  Phase, dialing, declaring, closing, sleeping, Task, starting, reconnecting, System, contains,
  spawn, reconnect_forever, close_connection, asleep, finish, wake, at, phase_of, advance, pick,
  Event, resumes, connection_closes, channel_closes, destroys, step, run,
}

abbrev rank : Phase → ℕ
rank dialing = 4
rank (declaring c) = 3
rank (closing c) = 2
rank sleeping = 1

abbrev weight : Task → ℕ
weight (reconnecting phase) = rank phase
weight (starting attempt phase) = 5 * (31 - attempt) + rank phase

-- A bound on the steps that the tasks can still take.
abbrev pub work_left : List Task → ℕ
work_left [] = 0
work_left (t ∷ ts) = weight t + work_left ts

abbrev IsStopping : System → Type 0
IsStopping s = s.publisher.shutting_down ≡ true

-- The tasks do at most `w` steps, and the service keeps shutting down.
record Within (w : ℕ) (s : System) : Type 0 where
  stopping : IsStopping s
  bounded : work_left s.tasks ≤ w

reconnect_forever-Within :
    (s : System) → IsStopping s → Within (work_left s.tasks) (reconnect_forever s)
unfolding reconnect_forever
reconnect_forever-Within s h = ground arith

close_connection-Within :
    (c : ℕ) (s : System) → IsStopping s → Within (work_left s.tasks) (close_connection c s)
unfolding close_connection
close_connection-Within c s h = ground arith

finish-Within : (t : Task) (s : System) → IsStopping s → Within (work_left s.tasks) (finish t s)
unfolding finish
finish-Within (starting attempt phase) s h = ground arith
finish-Within (reconnecting phase) s h = reconnect_forever-Within s h

weaken : {v w : ℕ} {s : System} → v ≤ w → Within v s → Within w s
weaken h k = record { stopping = k.stopping; bounded = omega arith }

wake-Within :
    (t : Task) (s : System)
    → IsStopping s
    → phase_of t ≡ sleeping
    → Within (weight t + work_left s.tasks - 1) (wake t s)
unfolding wake
wake-Within (starting attempt phase) s h e = ground arith
wake-Within (reconnecting phase) s h e = rw e (weaken (omega arith) (reconnect_forever-Within s h))

weight-pos : (t : Task) → 0 < weight t
weight-pos (starting attempt phase) = ground arith
weight-pos (reconnecting phase) = ground arith

weight-at :
    (t : Task) (phase : Phase) → weight (at t phase) + rank (phase_of t) ≡ weight t + rank phase
weight-at (starting attempt phase) phase' = omega arith
weight-at (reconnecting phase) phase' = omega arith

weight-asleep : (t : Task) → weight (asleep t) + rank (phase_of t) ≡ weight t + 1
weight-asleep (starting attempt phase) = omega arith
weight-asleep (reconnecting phase) = omega arith

-- One step of task `t`, which waits at `phase`, brings the bound down.
advance-Within :
    (phase : Phase) (t : Task) (ok : Bool) (s : System)
    → phase_of t ≡ phase
    → IsStopping s
    → Within (weight t + work_left s.tasks - 1) (advance phase t ok s)
unfolding advance
advance-Within dialing t true s e h = record {
  stopping = h;
  bounded = omega (arith, weight-at t (declaring s.next), ap rank e);
}
advance-Within dialing t false s e h = record {
  stopping = h;
  bounded = omega (arith, weight-asleep t, ap rank e);
}
advance-Within (declaring c) t ok s e h = elim (Bool-cases (ok && contains s.live c)) [
  | inl q ↦
      let adopted : System = record s {
        publisher = record s.publisher { connection = some c; channel = some c };
      } in
      rw q (weaken (omega (arith, weight-pos t)) (finish-Within t adopted h))
  | inr q ↦
      rw q (record { stopping = h; bounded = omega (arith, weight-at t (closing c), ap rank e) })
]
advance-Within (closing c) t ok s e h =
    weaken (omega (arith, weight-asleep t, ap rank e))
      (close_connection-Within c (spawn (asleep t) s) h)
advance-Within sleeping t ok s e h = wake-Within t s h e

pick-work :
    (n : ℕ) (ts : List Task) (t : Task) (us : List Task)
    → pick n ts ≡ some (t, us)
    → work_left ts ≡ weight t + work_left us
unfolding pick
pick-work n [] t us e = cc
pick-work zero (u ∷ ts) t us e = ground arith
pick-work (suc n) (u ∷ ts) t us e = elim (Option-cases (pick n ts)) [
  | inl q ↦ absurd (ground arith)
  | inr ((v, vs), q) ↦ ground (arith, pick-work n ts v vs q)
]

-- An event at which a task takes a step.
abbrev pub is_step : Event → System → Bool
is_step (resumes n ok) s = ltb n (length s.tasks)
is_step _ s = false

-- The number of steps that the tasks take in the course of the events.
unfoldable pub steps_taken : List Event → System → ℕ
steps_taken [] s = 0
steps_taken (e ∷ es) s =
    let rest = steps_taken es (step e s) in if is_step e s then suc rest else rest

pick-length : (n : ℕ) (ts : List Task) → pick n ts ≡ none → length ts ≤ n
unfolding pick
pick-length n [] e = omega arith
pick-length zero (t ∷ ts) e = cc
pick-length (suc n) (t ∷ ts) e = ground (arith, pick-length n ts)

step-Within :
    (e : Event) (s : System)
    → IsStopping s
    → IsStopping (step e s)
      × ((if is_step e s then 1 else 0) + work_left (step e s).tasks ≤ work_left s.tasks)
unfolding step
step-Within (resumes n ok) s h = elim (Option-cases (pick n s.tasks)) [
  | inl q ↦ ground (arith, pick-length n s.tasks)
  | inr ((t, ts), q) ↦
      let k = advance-Within (phase_of t) t ok (record s { tasks = ts }) refl h in
      rw (q, step) (k.stopping, ground (arith, pick-work n s.tasks t ts q, weight-pos t))
]
step-Within (connection_closes c) s h =
    let k = close_connection-Within c s h in (k.stopping, omega arith)
step-Within (channel_closes c) s h = ground arith
step-Within destroys s h = ground arith

-- Once the service shuts down, the publisher's tasks come to an end: whatever events follow, all
-- tasks together take at most as many steps as the bound on their remaining work allows, and what
-- they take is subtracted from it.
pub steps_taken-le :
    (es : List Event) (s : System)
    → s.publisher.shutting_down ≡ true
    → steps_taken es s + work_left (run es s).tasks ≤ work_left s.tasks
unfolding steps_taken run
steps_taken-le [] s h = omega arith
steps_taken-le (e ∷ es) s h =
    let (k, b) = step-Within e s h in ground (arith, steps_taken-le es (step e s) k)
