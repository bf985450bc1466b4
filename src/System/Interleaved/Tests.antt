-- ===== src/System/Interleaved/Tests.antt =====
-- An upload that the death of the API cuts off, and one whose message is sent and delivered.
use scribeflow.Prelude.{
  ℕ, ◌≡◌, ◌⊎◌, true, refl, List, [], ◌∷◌, length, ◌≢◌, inl, inr, some, ◌++◌, false,
}
use scribeflow.Text.{Text, text_eq, codes}
use scribeflow.Storage.{rename, remove, promote, final_path, sha256, file_at}
use scribeflow.Storage.Path.{normalize, join_path}
use scribeflow.Upload.{validate_upload}
use scribeflow.Queue.Publisher.{acked, publish_job, lost}
use scribeflow.Store.Memory.{memory}
use scribeflow.Service.{create, CreateResult, row_of}
use scribeflow.Service.Stages.{Creation, first_stage, proceed, proceed_times}
use scribeflow.Service.Samples.{platform, resolves, upload, jobs, start, id}
use scribeflow.Worker.Database.{get_status}
use scribeflow.Worker.Message.Samples.{python}
use scribeflow.System.{pick, message_of, site}
use scribeflow.System.Awaited.{Awaits}
use scribeflow.System.Stranded.{is_unfinished}
use scribeflow.System.Samples.{json, initial, constants}
use scribeflow.System.Interleaved.{Whole, Turn, asks, goes_on, api_dies, turn}
use scribeflow.System.Interleaved.Steps.{AtWork, Reachable, nothing_yet, next, Reachable-IsAwaited}
use scribeflow.Worker.Message.{Message, parse, lookup}
use scribeflow.Worker.Handler.{rejected, handle_message}
use scribeflow.Worker.Handler.Journey.{failing}
use scribeflow.System.Interleaved.Rows.{HasRow}
use scribeflow.System.Interleaved.Rows.Steps.{Follows, no_message_yet, later}
use scribeflow.System.Interleaved.Rows.Known.{Follows-handle_message}
use scribeflow.System.Picked.{Any}
use scribeflow.System.Interleaved.Accepted.{Runs, begins, takes, IsAnswered, IsAnswered-Awaits}

everything : Unit {0}
unfolding memory create promote sha256 publish_job rename remove file_at validate_upload final_path
    normalize join_path get_status text_eq turn proceed first_stage pick proceed_times start initial
everything = tt

abbrev creation : Creation
creation = record { job_id = id; now = 5; file = upload }

abbrev goes : ℕ → Turn ℕ
goes n = goes_on n (resolves acked)

abbrev turns : List (Turn ℕ) → Whole jobs Text
turns [] = record { system = initial; pending = []; lost = [] }
turns (t ∷ ts) = turn jobs platform python json t (turns ts)

-- The last turn first.
abbrev cut_off : List (Turn ℕ)
cut_off = api_dies ∷ goes 0 ∷ goes 0 ∷ goes 0 ∷ goes 0 ∷ asks creation ∷ []

cut_off-Reachable : Reachable jobs platform python json (turns cut_off)
unfolding memory start initial
cut_off-Reachable =
    next api_dies
      (next (goes 0)
        (next (goes 0)
          (next (goes 0) (next (goes 0) (next (asks creation) (nothing_yet (λ i. refl)) refl) refl)
            refl)
          refl)
        refl)
      tt

cut_off-unfinished : is_unfinished (get_status jobs id (turns cut_off).system.api.rows) ≡ true
unfolding everything
cut_off-unfinished = refl

Reachable-IsAwaited_example :
    Awaits python id (turns cut_off).system.jobs
    ⊎ Awaits python id (turns cut_off).system.retries
    ⊎ AtWork id (turns cut_off).pending
    ⊎ AtWork id (turns cut_off).lost
Reachable-IsAwaited_example =
    Reachable-IsAwaited jobs platform python json (turns cut_off) id cut_off-Reachable
      cut_off-unfinished

-- The queue has no message for the job, whose request has died with the API.
no_message :
    ((turns cut_off).system.jobs ≡ [])
    × ((turns cut_off).system.retries ≡ [])
    × (length (turns cut_off).lost ≡ 1)
unfolding everything
no_message = (refl, refl, refl)

abbrev sent_off : List (Turn ℕ)
sent_off = goes 0 ∷ goes 0 ∷ goes 0 ∷ goes 0 ∷ goes 0 ∷ asks creation ∷ []

sure : acked ≢ lost
sure e = cc

sent_off-Follows : Follows jobs platform python json (turns sent_off)
unfolding memory start initial
sent_off-Follows =
    later (goes 0)
      (later (goes 0)
        (later (goes 0)
          (later (goes 0)
            (later (goes 0)
              (later (asks creation) (no_message_yet refl refl)
                (refl, (λ n. elim n [ inl j ↦ absurd j | inr r ↦ absurd r ]), (λ a. absurd a)))
              sure)
            sure)
          sure)
        sure)
      sure

abbrev message : Message Text
message =
    message_of jobs platform python json
      (record { job_id = id; file_path = codes "/data/audio/j1.mp3"; attempt = 0 })

message_there : pick 0 (turns sent_off).system.jobs ≡ some (message, [])
unfolding everything
message_there = refl

message_named : parse python message ≡ some (id, codes "/data/audio/j1.mp3")
unfolding parse text_eq lookup
message_named = refl

Follows-handle_message_example :
    HasRow jobs id (turns sent_off).system.api.rows
    × ((handle_message jobs python constants
          (failing jobs python constants [] (codes "boom"))
          message
          (site jobs platform python json (turns sent_off).system)).1.settlement
        ≢ rejected)
Follows-handle_message_example =
    Follows-handle_message jobs platform python json (turns sent_off) constants
      (failing jobs python constants [] (codes "boom")) 0 message [] id (codes "/data/audio/j1.mp3")
      sent_off-Follows message_there message_named

abbrev answered_off : List (Turn ℕ)
answered_off = api_dies ∷ goes 0 ∷ goes 0 ∷ goes 0 ∷ goes 0 ∷ goes 0 ∷ goes 0 ∷ asks creation ∷ []

answered_off-Runs : Runs jobs platform python json (turns answered_off)
unfolding memory start initial
answered_off-Runs =
    takes api_dies
      (takes (goes 0)
        (takes (goes 0)
          (takes (goes 0)
            (takes (goes 0)
              (takes (goes 0)
                (takes (goes 0)
                  (takes (asks creation) (begins (λ i. refl) refl refl) refl
                    (refl, (λ n. elim n [ inl j ↦ absurd j | inr r ↦ absurd r ]), (λ a. absurd a)))
                  refl sure)
                refl sure)
              refl sure)
            refl sure)
          refl sure)
        refl sure)
      tt tt

abbrev answer : CreateResult ℕ
answer = record {
  job = row_of jobs platform (resolves acked) id 5 upload (codes "/data/audio/j1.mp3") (7 ∷ 8 ∷ []);
  deduplicated = false;
}

answer_given :
    Any
      (IsAnswered jobs platform python json answer)
      ((turns answered_off).pending ++ (turns answered_off).lost)
unfolding everything
answer_given = inl refl

IsAnswered-Awaits_example :
    HasRow jobs id (turns answered_off).system.api.rows
    × ((is_unfinished (get_status jobs id (turns answered_off).system.api.rows) ≡ false)
        ⊎ Awaits python id (turns answered_off).system.jobs
        ⊎ Awaits python id (turns answered_off).system.retries)
IsAnswered-Awaits_example =
    IsAnswered-Awaits jobs platform python json (turns answered_off) answer answered_off-Runs
      answer_given refl
