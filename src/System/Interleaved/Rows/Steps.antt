-- ===== src/System/Interleaved/Rows/Steps.antt =====
-- No interleaving brings a message before its row.
use scribeflow.Prelude.{
  ℕ, ◌≡◌, ◌≢◌, ◌⊎◌, sym, inl, inr, true, false, List, [], ◌∷◌, ◌++◌, Option, none, some, arith,
  Option-cases, Bool-cases, All, All-weaken,
}
use scribeflow.Text.{Text, text_eq}
use scribeflow.Text.Equality.{text_eq_iff}
use scribeflow.Upload.{UploadRejection}
use scribeflow.Queue.Publisher.{lost}
use scribeflow.Store.{JobStore}
use scribeflow.Service.{Outcomes, Platform}
use scribeflow.Service.Stages.{Creation, Stage, first_stage, admitted, proceed}
use scribeflow.Worker.Message.{Python, Message}
use scribeflow.System.{Json, System, pick, sent, step}
use scribeflow.System.Awaited.{Names, Awaits}
use scribeflow.System.Picked.{Any, Any-split, pick-append, All-pick, Distinct, Distinct-pick}
use scribeflow.System.Interleaved.{
  Request, Whole, Turn, asks, goes_on, api_dies, connects, happens, gone_on, turn,
}
use scribeflow.System.Interleaved.Rows.{HasRow, IsAhead, IsAhead-weaken, IsOwn, proceed-IsOwn}
use scribeflow.System.Interleaved.Rows.Grows.{IsNamed, Grows, IsOther, step-Grows}

-- Two requests with one id for their jobs.
abbrev pub Clash : {Number : Type 0} → Request Number → Request Number → Type 0
Clash a b = a.0.job_id ≡ b.0.job_id

module _ {Number : Type 0} (S : JobStore Number) (A : Platform Number) (P : Python)
    (J : Json P) where
  open P use {Foreign}

  -- A new id is a UUID that no other request and no message has, and no confirmation is lost.
  abbrev pub IsSure : Turn Number → Whole S Foreign → Type 0
  IsSure (asks c) s =
      (P.is_uuid c.job_id ≡ true)
      × ¬ IsNamed S A P J c.job_id s.system
      × ¬ Any (λ r. c.job_id ≡ r.0.job_id) (s.pending ++ s.lost)
  IsSure (goes_on n o) s = o.confirm ≢ lost
  IsSure (happens e) s = IsOther S A P J s.system e
  IsSure _ s = Unit {0}

  pub data Follows : Whole S Foreign → Type 0 where
    no_message_yet :
        {s : System S Foreign}
        → s.jobs ≡ []
        → s.retries ≡ []
        → Follows (record { system = s; pending = []; lost = [] })
    later :
        {s : Whole S Foreign} (t : Turn Number)
        → Follows s
        → IsSure t s
        → Follows (turn S A P J t s)

  abbrev pub Ahead : System S Foreign → Request Number → Type 0
  Ahead s r = IsAhead S (IsNamed S A P J r.0.job_id s) s.api.rows r.0 r.1

  pub record IsBacked (s : Whole S Foreign) : Type 0 where
    pub found : (id : Text) → IsNamed S A P J id s.system → HasRow S id s.system.api.rows
    pub uuids : All (λ r. P.is_uuid r.0.job_id ≡ true) (s.pending ++ s.lost)
    pub ahead : All (Ahead s.system) (s.pending ++ s.lost)
    pub distinct : Distinct Clash (s.pending ++ s.lost)

  grown :
      (s : Whole S Foreign) (s' : System S Foreign)
      → Grows S A P J s.system s'
      → IsBacked s
      → IsBacked (record s { system = s' })
  grown s s' g b = record {
    found = λ id n. g.keep id (b.found id (g.back id n));
    uuids = b.uuids;
    ahead =
        All-weaken (s.pending ++ s.lost)
          (λ r h.
            IsAhead-weaken S _ _ s.system.api.rows s'.api.rows r.0 r.1 (g.back r.0.job_id)
              (g.keep r.0.job_id) h)
          b.ahead;
    distinct = b.distinct;
  }

  module _ (s : Whole S Foreign) (b : IsBacked s) (n : ℕ) (o : Outcomes) (c : Creation)
      (stage : Stage Number) (rest : List (Request Number))
      (q : pick n s.pending ≡ some ((c, stage), rest)) (sure : o.confirm ≢ lost) where
    abbrev after : Whole S Foreign
    after = gone_on S A P J o (c, stage) rest s

    there : pick n (s.pending ++ s.lost) ≡ some ((c, stage), rest ++ s.lost)
    there = pick-append n s.pending rest s.lost (c, stage) q

    abbrev more : List (Message Foreign)
    more = sent S A P J s.system.api.taken after.system.api.taken

    own :
        IsOwn S A P J
          (IsNamed S A P J c.job_id s.system)
          c
          (proceed S A o c stage s.system.api).0
          s.system.api
          after.system.api
    own =
        let (uuid, _) =
          All-pick (λ r. P.is_uuid r.0.job_id ≡ true) n (s.pending ++ s.lost) (rest ++ s.lost)
            (c, stage) there b.uuids in
        let (here, _) =
          All-pick (Ahead s.system) n (s.pending ++ s.lost) (rest ++ s.lost) (c, stage) there
            b.ahead in
        proceed-IsOwn S A P J (IsNamed S A P J c.job_id s.system) o c sure uuid stage s.system.api
          here

    -- A job is named by an old message or by a new one.
    old_or_new :
        (id : Text)
        → IsNamed S A P J id after.system
        → IsNamed S A P J id s.system ⊎ Awaits P id more
    old_or_new id (inr r) = inl (inr r)
    old_or_new id (inl j) = elim (Any-split (Names P id) s.system.jobs more j) [
      | inl old ↦ inl (inl old)
      | inr new ↦ inr new
    ]

    found_on : (id : Text) → IsNamed S A P J id after.system → HasRow S id after.system.api.rows
    found_on id named = elim (old_or_new id named) [
      | inr new ↦ let (e, row) = own.sends id new in rw e row
      | inl old ↦ elim (Bool-cases (text_eq c.job_id id)) [
        | inr ne ↦ rw (own.others id ne) (b.found id old)
        | inl same ↦
            let e : id ≡ c.job_id = sym ((text_eq_iff c.job_id id).0 same) in
            rw e (own.keeps (rw e at old) (rw e at (b.found id old)))
      ]
    ]

    others-Ahead :
        (rs : List (Request Number))
        → ¬ Any (Clash (c, stage)) rs
        → All (Ahead s.system) rs
        → All (Ahead after.system) rs
    others-Ahead [] alone h = tt
    others-Ahead (r ∷ rs) alone (h, hs) =
        let apart : c.job_id ≢ r.0.job_id = λ e. alone (inl e) in
        let ne : text_eq c.job_id r.0.job_id ≡ false =
          ground (arith, apart, text_eq_iff c.job_id r.0.job_id) in
        (
          IsAhead-weaken S _ _ s.system.api.rows after.system.api.rows r.0 r.1
              (λ named. elim (old_or_new r.0.job_id named) [
                | inl old ↦ old
                | inr new ↦ absurd (alone (inl (sym (own.sends r.0.job_id new).0)))
              ])
              (λ row. rw (own.others r.0.job_id ne) row) h,
          others-Ahead rs (λ a. alone (inr a)) hs,
        )

    gone_on-IsBacked : IsBacked after
    gone_on-IsBacked =
        let (uuid, uuids) =
          All-pick (λ r. P.is_uuid r.0.job_id ≡ true) n (s.pending ++ s.lost) (rest ++ s.lost)
            (c, stage) there b.uuids in
        let (_, others) =
          All-pick (Ahead s.system) n (s.pending ++ s.lost) (rest ++ s.lost) (c, stage) there
            b.ahead in
        let (alone, apart) =
          Distinct-pick Clash (λ x y e. sym e) n (s.pending ++ s.lost) (rest ++ s.lost) (c, stage)
            there b.distinct in
        record {
          found = found_on;
          uuids = (uuid, uuids);
          ahead = (
            IsAhead-weaken S _ _ after.system.api.rows after.system.api.rows c _
                (old_or_new c.job_id) (λ row. row) own.ahead,
            others-Ahead (rest ++ s.lost) alone others,
          );
          distinct = (alone, apart);
        }

  admitted-IsAhead :
      (Named : Type 0) (rows : S.Rows) (c : Creation) (rejection : Option UploadRejection)
      → (Named → ⊥)
      → IsAhead S Named rows c (admitted rejection)
  admitted-IsAhead Named rows c none h = h
  admitted-IsAhead Named rows c (some r) h = tt

  turn-IsBacked :
      (s : Whole S Foreign) (t : Turn Number)
      → IsBacked s
      → IsSure t s
      → IsBacked (turn S A P J t s)
  unfolding turn first_stage
  turn-IsBacked s (asks c) b (u, unnamed, new) = record {
    found = b.found;
    uuids = (u, b.uuids);
    ahead = (admitted-IsAhead _ s.system.api.rows c _ unnamed, b.ahead);
    distinct = (new, b.distinct);
  }
  turn-IsBacked s (goes_on n o) b sure = elim (Option-cases (pick n s.pending)) [
    | inl q ↦ rw (q, turn) b
    | inr (((c, stage), rest), q) ↦ rw (q, turn) (gone_on-IsBacked s b n o c stage rest q sure)
  ]
  turn-IsBacked s api_dies b u = record {
    found = b.found;
    uuids = b.uuids;
    ahead = b.ahead;
    distinct = b.distinct;
  }
  turn-IsBacked s (connects p) b u =
      grown s (record s.system { api = record s.system.api { publisher = p } })
        (record { back = λ id n. n; keep = λ id r. r }) b
  turn-IsBacked s (happens e) b other =
      grown s (step S A P J e s.system) (step-Grows S A P J s.system e other) b

  pub Follows-IsBacked : (s : Whole S Foreign) → Follows s → IsBacked s
  Follows-IsBacked s (no_message_yet {s = first} jobs retries) = record {
    found = λ id n. elim n [ inl j ↦ absurd (rw jobs at j) | inr r ↦ absurd (rw retries at r) ];
    uuids = tt;
    ahead = tt;
    distinct = tt;
  }
  Follows-IsBacked s (later t r sure) = turn-IsBacked _ t (Follows-IsBacked _ r) sure

  pub Follows-HasRow :
      (s : Whole S Foreign) (id : Text)
      → Follows s
      → IsNamed S A P J id s.system
      → HasRow S id s.system.api.rows
  Follows-HasRow s id r named = (Follows-IsBacked s r).found id named
