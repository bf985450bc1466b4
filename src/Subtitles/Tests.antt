-- ===== src/Subtitles/Tests.antt =====
-- srt.util.ts at the inputs of its tests, and the theorems at concrete inputs.
use scribeflow.Prelude.{ℕ, ◌≡◌, refl, List, [], ◌∷◌, arith, All}
use scribeflow.Floats.Micros.{micros}
use scribeflow.Text.{codes}
use scribeflow.Subtitles.{TranscriptSegment, format_timestamp, to_srt}
use scribeflow.Subtitles.Timestamp.{IsTimestamp, format_timestamp-IsTimestamp}
use scribeflow.Subtitles.Cues.{IsPlain}

abbrev segments : List (TranscriptSegment ℕ)
segments =
    record { id = 0; start = 0; end = 4900000; text = codes "Hello and welcome." }
    ∷ record { id = 1; start = 4900000; end = 9880000; text = codes "Second segment." }
    ∷ []

timestamps :
    (format_timestamp micros 59999000 b',' ≡ codes "00:00:59,999")
    × (format_timestamp micros 59999600 b',' ≡ codes "00:01:00,000")
    × (format_timestamp micros 3661500000 b',' ≡ codes "01:01:01,500")
    × (format_timestamp micros 36000001000 b'.' ≡ codes "10:00:00.001")
unfolding format_timestamp
timestamps = (refl, refl, refl, refl)

rendered :
    to_srt micros segments
    ≡ codes
        "1\n00:00:00,000 --> 00:00:04,900\nHello and welcome.\n\n2\n00:00:04,900 --> 00:00:09,880\nSecond segment.\n"
unfolding to_srt
rendered = refl

empty_srt : to_srt micros [] ≡ []
unfolding to_srt
empty_srt = refl

segments-IsPlain : All (IsPlain micros) segments
segments-IsPlain = ((refl, refl, omega arith), ((refl, refl, omega arith), tt))

format_timestamp-IsTimestamp_example :
    IsTimestamp b',' 60000 (format_timestamp micros 59999600 b',')
format_timestamp-IsTimestamp_example = format_timestamp-IsTimestamp micros 59999600 b',' 60000 refl
