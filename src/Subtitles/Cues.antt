-- ===== src/Subtitles/Cues.antt =====
-- The subtitle texts of srt.util.ts are read back, cue by cue.
use scribeflow.Prelude.{
  ℕ, suc, ◌+◌, ◌<◌, ◌≡◌, refl, ap, ◌∙◌, List, [], ◌∷◌, ◌++◌, some, arith, All, All-append,
  All-weaken, append_assoc, append-nil,
}
use scribeflow.Prelude.Int.{ℤ, pos, pos_part}
use scribeflow.Floats.{Floats}
use scribeflow.Text.{Text, codes, join, to_decimal, text_eq}
use scribeflow.Text.Decimal.{read-to_decimal, to_decimal-IsDigit}
use scribeflow.Text.Split.{Lacks, split_on, split_on_last, split_on-append}
use scribeflow.Subtitles.{
  TranscriptSegment, map_from, format_ms, format_timestamp, block, to_srt, to_vtt,
}
use scribeflow.Subtitles.Timestamp.{IsSeparator, read_timestamp-format_ms, format_ms-IsStampUnit}
use scribeflow.Subtitles.Reader.{Cue, read_timing, read_lines, read_srt, read_vtt}

abbrev arrow : Text
arrow = codes " --> "

abbrev timing : ℕ → ℕ → ℕ → Text
timing separator a b = format_ms (pos a) separator ++ (arrow ++ format_ms (pos b) separator)

Lacks-format_ms :
    (c t separator : ℕ) → c < b',' → IsSeparator separator → Lacks c (format_ms (pos t) separator)
Lacks-format_ms c t separator h k =
    All-weaken _ (λ d u e. omega arith) (format_ms-IsStampUnit t separator k)

read_timing-timing :
    (separator a b : ℕ)
    → IsSeparator separator
    → read_timing separator (timing separator a b) ≡ some (a, b)
unfolding read_timing text_eq
read_timing-timing separator a b k = simp (
  split_on-append b' ' (format_ms (pos a) separator) (codes "--> " ++ format_ms (pos b) separator)
      (Lacks-format_ms b' ' a separator (omega arith) k),
  split_on-append b' ' (codes "-->") (format_ms (pos b) separator) (omega arith),
  split_on_last b' ' (format_ms (pos b) separator)
      (Lacks-format_ms b' ' b separator (omega arith) k),
  read_timestamp-format_ms a separator k,
  read_timestamp-format_ms b separator k,
)

Lacks-timing : (separator a b : ℕ) → IsSeparator separator → Lacks b'\n' (timing separator a b)
Lacks-timing separator a b k =
    All-append _ (format_ms (pos a) separator) (arrow ++ format_ms (pos b) separator)
      (Lacks-format_ms b'\n' a separator (omega arith) k)
      (All-append _ arrow (format_ms (pos b) separator) (omega arith)
        (Lacks-format_ms b'\n' b separator (omega arith) k))

split-three :
    (a b c t : Text)
    → Lacks b'\n' a
    → Lacks b'\n' b
    → Lacks b'\n' c
    → split_on b'\n' (a ++ b'\n' ∷ (b ++ b'\n' ∷ (c ++ b'\n' ∷ t))) ≡ a ∷ b ∷ c ∷ split_on b'\n' t
split-three a b c t ha hb hc = simp (
  split_on-append b'\n' a (b ++ b'\n' ∷ (c ++ b'\n' ∷ t)) ha,
  split_on-append b'\n' b (c ++ b'\n' ∷ t) hb,
  split_on-append b'\n' c t hc,
)

module _ (F : Floats) where
  open F use {Number, of_ℕ, times, round}

  -- A time in milliseconds, as the code rounds it.
  abbrev pub rounded : Number → ℤ
  rounded seconds = round (times seconds (of_ℕ 1000))

  abbrev pub ms_of : Number → ℕ
  ms_of seconds = pos_part (rounded seconds)

  -- The times do not lie before the start of the file, and the text is one line.
  abbrev pub IsPlain : TranscriptSegment Number → Type 0
  IsPlain g =
      (rounded g.start ≡ pos (ms_of g.start))
      × (rounded g.end ≡ pos (ms_of g.end))
      × Lacks b'\n' g.text

  abbrev pub cue_of : TranscriptSegment Number → ℕ → Cue
  cue_of g index = record {
    index = index + 1;
    start_ms = ms_of g.start;
    end_ms = ms_of g.end;
    text = g.text;
  }

  format_timestamp-rounded :
      (seconds : Number) (separator : ℕ)
      → rounded seconds ≡ pos (ms_of seconds)
      → format_timestamp F seconds separator ≡ format_ms (pos (ms_of seconds)) separator
  unfolding format_timestamp
  format_timestamp-rounded seconds separator e = ap (λ z. format_ms z separator) e

  -- A cue is its number, its timing line and its text, each closed by a line end.
  block_parts :
      (separator index : ℕ) (g : TranscriptSegment Number) (t : Text)
      → IsPlain g
      → block F separator g index ++ t
        ≡ to_decimal (index + 1)
          ++ b'\n'
            ∷ (timing separator (ms_of g.start) (ms_of g.end) ++ b'\n' ∷ (g.text ++ b'\n' ∷ t))
  unfolding block
  block_parts separator index g t (hs, he, _) = simp (
    format_timestamp-rounded g.start separator hs,
    format_timestamp-rounded g.end separator he,
    append_assoc,
  )

  split-block :
      (separator index : ℕ) (g : TranscriptSegment Number) (t : Text)
      → IsSeparator separator
      → IsPlain g
      → split_on b'\n' (block F separator g index ++ t)
        ≡ to_decimal (index + 1)
          ∷ timing separator (ms_of g.start) (ms_of g.end)
          ∷ g.text
          ∷ split_on b'\n' t
  split-block separator index g t k h =
      ap (split_on b'\n') (block_parts separator index g t h)
      ∙ split-three _ _ _ t (All-weaken _ (λ d u e. omega arith) (to_decimal-IsDigit (index + 1)))
          (Lacks-timing separator (ms_of g.start) (ms_of g.end) k) h.2

  read_lines-cue :
      (separator index : ℕ) (g : TranscriptSegment Number) (rest : List Text) (cues : List Cue)
      → IsSeparator separator
      → read_lines separator rest ≡ some cues
      → read_lines separator (
          to_decimal (index + 1)
          ∷ timing separator (ms_of g.start) (ms_of g.end)
          ∷ g.text
          ∷ []
          ∷ rest)
        ≡ some (cue_of g index ∷ cues)
  unfolding read_lines
  read_lines-cue separator index g rest cues k e =
      rw (
        read_timing-timing separator (ms_of g.start) (ms_of g.end) k,
        e,
        read-to_decimal (index + 1),
      )

  read_lines-blocks :
      (separator index : ℕ) (gs : List (TranscriptSegment Number))
      → IsSeparator separator
      → All IsPlain gs
      → read_lines separator
          (split_on b'\n' (join (b'\n' ∷ []) (map_from index (block F separator) gs)))
        ≡ some (map_from index cue_of gs)
  unfolding read_lines split_on join map_from
  read_lines-blocks separator index [] k hs = refl
  read_lines-blocks separator index (g ∷ []) k (h, hs) =
      rw (← append-nil (block F separator g index), split-block separator index g [] k h)
        (read_lines-cue separator index g [] [] k refl)
  read_lines-blocks separator index (g ∷ g' ∷ gs) k (h, hs) =
      rw (split-block separator index g _ k h) (
        read_lines-cue separator index g _ _ k
          (read_lines-blocks separator (suc index) (g' ∷ gs) k hs))

  -- Reading the SRT text of one-line segments gives a cue for each segment in order, numbered from
  -- 1, with its text and its times in milliseconds.
  pub read_srt-to_srt :
      (gs : List (TranscriptSegment Number))
      → All IsPlain gs
      → read_srt (to_srt F gs) ≡ some (map_from 0 cue_of gs)
  unfolding read_srt to_srt
  read_srt-to_srt gs h = read_lines-blocks b',' 0 gs (omega arith) h

  -- Reading the VTT text of one-line segments, its header included, gives a cue for each segment in
  -- order, numbered from 1, with its text and its times in milliseconds.
  pub read_vtt-to_vtt :
      (gs : List (TranscriptSegment Number))
      → All IsPlain gs
      → read_vtt (to_vtt F gs) ≡ some (map_from 0 cue_of gs)
  unfolding read_vtt to_vtt split_on text_eq
  read_vtt-to_vtt gs h = read_lines-blocks b'.' 0 gs (omega arith) h
