-- ===== src/Health/Readiness.antt =====
-- What an answer of the probe says of the database and the publisher.
use scribeflow.Prelude.{
  ℕ, ◌≡◌, refl, Bool, true, false, List, [], ◌∷◌, ◌++◌, none, some, arith, Bool-cases, Option-cases,
  inl, inr,
}
use scribeflow.Text.{codes, text_eq}
use scribeflow.Queue.Topology.{JobMessage}
use scribeflow.Queue.Publisher.{
  Publisher, Event, contains, is_connected, publish_job, acked, run, init,
}
use scribeflow.Queue.Publisher.Invariant.{run-Inv}
use scribeflow.Health.{healthy, check}

check-eq :
    (database : Bool) (publisher : Publisher)
    → check database publisher ≡ healthy (codes "ok")
    → (database ≡ true) × (is_connected publisher ≡ true)
unfolding check text_eq
check-eq true publisher e = elim (Bool-cases (is_connected publisher)) [
  | inl c ↦ (refl, c)
  | inr c ↦ absurd (ground (arith, rw c at e))
]
check-eq false publisher e = absurd (ground (arith, e))

-- When the probe answers that all is well, after any events that the publisher has seen: the
-- database is up, the publisher has a channel, the connection of that channel is open, and a job
-- that is published now and confirmed by the broker is taken by the exchange without an error.
pub check-publish_job :
    (database : Bool) (events : List Event) (message : JobMessage) (taken : List JobMessage)
    → let s = run events init in
      check database s.publisher ≡ healthy (codes "ok")
      → (database ≡ true)
        × ((c : ℕ) × (s.publisher.channel ≡ some c) × (contains s.live c ≡ true))
        × (publish_job s.publisher acked message taken ≡ (none, taken ++ message ∷ []))
unfolding publish_job is_connected
check-publish_job database events message taken e =
    let s = run events init in
    let v = run-Inv events in
    let (up, open_channel) = check-eq database s.publisher e in
    elim (Option-cases s.publisher.channel) [
      | inl q ↦ absurd (ground (arith, q, open_channel))
      | inr (c, q) ↦ (
        up,
        (c, q, ground (arith, q, v.own_channel, v.own_connection)),
        ground (arith, open_channel),
      )
    ]
