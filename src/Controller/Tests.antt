-- ===== src/Controller/Tests.antt =====
-- Requests to the controller on a table in memory, and the theorems at them.
use scribeflow.Prelude.{ℕ, ◌≡◌, refl, arith, true, Bool, [], none, some}
use scribeflow.Prelude.{◌⊎◌, Option}
use scribeflow.Prelude.Int.{ℤ, pos}
use scribeflow.Controller.Query.{format_of, list_query, list_request, export_query}
use scribeflow.Controller.Query.Pages.{IsBadQuery, IsPage, list_request-IsPage}
use scribeflow.Controller.Query.Exports.{IsAnswer, export_query-IsAnswer}
use scribeflow.Floats.Micros.{micros}
use scribeflow.Text.{Text, codes}
use scribeflow.Subtitles.{srt, vtt, map_from}
use scribeflow.Subtitles.Cues.{cue_of}
use scribeflow.Upload.{validate_upload}
use scribeflow.Storage.{rename, remove, promote, final_path, sha256, file_at}
use scribeflow.Storage.Path.{normalize, join_path}
use scribeflow.Queue.Publisher.{acked, publish_job}
use scribeflow.Jobs.{queued, CreatedJobDto}
use scribeflow.Store.Memory.{memory}
use scribeflow.Service.{ok, World, create, find_by_id}
use scribeflow.Service.Samples.{platform, resolves, upload, jobs, start, id, spoken, done_job, done}
use scribeflow.Controller.{Response, file_size_limit, post, get, export}
use scribeflow.Controller.Export.{answered, read_as, read_as-export}

everything : Unit {0}
unfolding post get create find_by_id promote sha256 publish_job memory rename remove file_at
    validate_upload final_path normalize join_path
everything = tt

limit_200 : file_size_limit 200 ≡ 209715200
unfolding file_size_limit
limit_200 = refl

abbrev posted : World jobs
posted = (post micros jobs platform (resolves acked) id 5 (some upload) start).1

abbrev created : Response CreatedJobDto
created = record { status = 202; headers = []; body = record { id = id; status = queued } }

abbrev any_id : Text → Bool
any_id s = true

read_as-export_example :
    (response : Response Text) × ((export micros jobs platform
        (resolves acked)
        any_id
        id
        vtt
        done).0
      ≡ ok response)
    × (response.status ≡ 200)
    × (read_as vtt response.body ≡ some (map_from 0 (cue_of micros) spoken.segments))
unfolding everything start done
read_as-export_example =
    read_as-export micros jobs platform (resolves acked) any_id id vtt done done_job spoken refl
      refl refl refl refl ((refl, refl, omega arith), tt)

export_query-IsAnswer_example :
    let (r, w') =
      export_query micros jobs platform (resolves acked) any_id id (some (codes "pdf")) posted in
    IsAnswer micros jobs platform
      (resolves acked)
      any_id
      id
      (some (codes "pdf"))
      posted
      (answered r)
    × (w' ≡ posted)
export_query-IsAnswer_example =
    export_query-IsAnswer micros jobs platform (resolves acked) any_id id (some (codes "pdf"))
      posted

-- Values of the query that are numerals.
abbrev numeral : ℕ → Option ℤ
numeral n = some (pos n)

limits :
    (list_query numeral none none ≡ some (record { limit = 20; offset = 0 }))
    × (list_query numeral (some 0) none ≡ none)
    × (list_query numeral (some 101) none ≡ none)
    × (list_query numeral (some 100) (some 7) ≡ some (record { limit = 100; offset = 7 }))
unfolding list_query
limits = (refl, refl, refl, refl)

formats :
    (format_of none ≡ some srt)
    × (format_of (some (codes "vtt")) ≡ some vtt)
    × (format_of (some (codes "VTT")) ≡ none)
unfolding format_of
formats = (refl, refl, refl)

list_request-IsPage_example :
    IsBadQuery numeral micros jobs platform
      (resolves acked)
      (some 100)
      none
      done
      (list_request numeral micros jobs platform (resolves acked) (some 100) none done)
    ⊎ IsPage numeral micros jobs platform
        (resolves acked)
        (some 100)
        none
        done
        (list_request numeral micros jobs platform (resolves acked) (some 100) none done)
list_request-IsPage_example =
    list_request-IsPage numeral micros jobs platform (resolves acked) (some 100) none done refl
