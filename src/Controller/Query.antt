-- ===== src/Controller/Query.antt =====
-- api/src/transcriptions/dto/list-query.dto.ts and export-query.dto.ts, as the validation pipe of
-- main.ts applies them. `integer_of` is `Number(value)` for a value of the query, none where `IsInt`
-- does not hold; a value that is not there is none, at which `IsOptional` keeps the default.
pub mod Pages
pub mod Exports
use scribeflow.Prelude.{ℕ, Bool, ◌&&◌, List, Option, none, some, leb, if◌then◌else◌}
use scribeflow.Prelude.Int.{ℤ, pos, negsuc}
use scribeflow.Floats.{Floats}
use scribeflow.Text.{Text, codes, text_eq}
use scribeflow.Subtitles.{SubtitleFormat, srt, vtt}
use scribeflow.Jobs.{JobSummaryDto}
use scribeflow.Store.{JobStore}
use scribeflow.Service.{http, M, throw, Outcomes, Platform}
use scribeflow.Controller.{Response, export, list_jobs}

pub record ListQuery : Type 0 where
  pub limit : ℕ
  pub offset : ℕ

abbrev at_most_100 : ℕ → Option ℕ
at_most_100 n = if leb 1 n && leb n 100 then some n else none

-- `@IsInt() @Min(1) @Max(100)`, and `@IsInt() @Min(0)`.
abbrev pub checked_limit : Option ℤ → Option ℕ
checked_limit none = none
checked_limit (some (pos n)) = at_most_100 n
checked_limit (some (negsuc n)) = none

abbrev pub checked_offset : Option ℤ → Option ℕ
checked_offset none = none
checked_offset (some (pos n)) = some n
checked_offset (some (negsuc n)) = none

-- `@IsOptional() @IsIn(['srt', 'vtt'])`, with the default.
unfoldable pub format_of : Option Text → Option SubtitleFormat
unfolding text_eq
format_of none = some srt
format_of (some value) =
    if text_eq value (codes "srt")
    then some srt
    else if text_eq value (codes "vtt")
    then some vtt
    else none

module _ {Value : Type 0} (integer_of : Value → Option ℤ) where
  abbrev pub limit_of : Option Value → Option ℕ
  limit_of none = some 20
  limit_of (some value) = checked_limit (integer_of value)

  abbrev pub offset_of : Option Value → Option ℕ
  offset_of none = some 0
  offset_of (some value) = checked_offset (integer_of value)

  abbrev both : Option ℕ → Option ℕ → Option ListQuery
  both (some limit) (some offset) = some (record { limit = limit; offset = offset })
  both _ _ = none

  unfoldable pub list_query : Option Value → Option Value → Option ListQuery
  list_query limit offset = both (limit_of limit) (offset_of offset)

  module _ (F : Floats) (S : JobStore F.Number) (P : Platform F.Number) (o : Outcomes) where
    abbrev list_checked : Option ListQuery → M S (Response (List (JobSummaryDto F.Number)))
    list_checked none = throw (http 400 (codes "Bad Request"))
    list_checked (some query) = list_jobs F S P o query.limit query.offset

    -- `GET /v1/transcriptions?limit=…&offset=…`; the message of the error is the pipe's.
    unfoldable pub list_request :
        Option Value → Option Value → M S (Response (List (JobSummaryDto F.Number)))
    unfolding list_query
    list_request limit offset = list_checked (list_query limit offset)

module _ (F : Floats) (S : JobStore F.Number) (P : Platform F.Number) (o : Outcomes) where
  abbrev export_checked : (Text → Bool) → Text → Option SubtitleFormat → M S (Response Text)
  export_checked is_uuid param none = throw (http 400 (codes "Bad Request"))
  export_checked is_uuid param (some format) = export F S P o is_uuid param format

  -- `GET /v1/transcriptions/:id/export?format=…`.
  unfoldable pub export_query : (Text → Bool) → Text → Option Text → M S (Response Text)
  unfolding format_of
  export_query is_uuid param format = export_checked is_uuid param (format_of format)
