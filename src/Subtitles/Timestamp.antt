-- ===== src/Subtitles/Timestamp.antt =====
-- The timestamps of srt.util.ts: their fields, and that they are read back.
use scribeflow.Prelude.{
  ℕ, ◌+◌, ◌*◌, ◌/◌, ◌%◌, ◌≤◌, ◌<◌, ◌≡◌, refl, ap, ◌∙◌, [], ◌∷◌, ◌++◌, some, arith, length, All,
  All-append, All-weaken,
}
use scribeflow.Prelude.Int.{pos}
use scribeflow.Floats.{Floats}
use scribeflow.Text.{Text, to_decimal, pad_start}
use scribeflow.Text.Decimal.{
  IsDigit, read, read-pad_start, pad_start-IsDigit, length-pad_two, length-pad_three,
  length-pad_two-ge,
}
use scribeflow.Text.Split.{Lacks, split_on, split_on_last, split_on-append}
use scribeflow.Subtitles.{format_ms, format_timestamp}
use scribeflow.Subtitles.Reader.{read_timestamp}

-- The separators of the two formats: "," and ".", below the digits.
abbrev pub IsSeparator : ℕ → Type 0
IsSeparator c = (b',' ≤ c) × (c < b'0')

-- The units that stand in a timestamp: neither a space nor an end of line is among them.
abbrev pub IsStampUnit : ℕ → Type 0
IsStampUnit c = (b',' ≤ c) × (c ≤ b':')

abbrev pub field : ℕ → ℕ → Text
field n width = pad_start (to_decimal n) width b'0'

-- The shape of a timestamp, by numbers.
abbrev pub stamp : ℕ → ℕ → ℕ → ℕ → ℕ → Text
stamp separator h m s ms =
    field h 2 ++ b':' ∷ (field m 2 ++ b':' ∷ (field s 2 ++ separator ∷ field ms 3))

pub stamp_ms : ℕ → ℕ → Text
stamp_ms separator t =
    stamp separator (t / 1000 / 3600) (t / 1000 / 60 % 60) (t / 1000 % 60) (t % 1000)

pub format_ms-pos : (t separator : ℕ) → format_ms (pos t) separator ≡ stamp_ms separator t
unfolding format_ms stamp_ms
format_ms-pos t separator = refl

Lacks-field : (c n width : ℕ) → ¬ IsDigit c → Lacks c (field n width)
Lacks-field c n width h =
    All-weaken (field n width) (λ a p e. h (rw (← e) p)) (pad_start-IsDigit n width)

-- Seconds and milliseconds.
abbrev tail_fields : ℕ → ℕ → ℕ → Text
tail_fields separator s ms = field s 2 ++ separator ∷ field ms 3

Lacks-tail_fields :
    (separator s ms : ℕ) → IsSeparator separator → Lacks b':' (tail_fields separator s ms)
Lacks-tail_fields separator s ms k =
    All-append _ (field s 2) (separator ∷ field ms 3) (Lacks-field b':' s 2 (λ d. omega arith))
      ((λ e. omega arith), Lacks-field b':' ms 3 (λ d. omega arith))

split-stamp :
    (separator h m s ms : ℕ)
    → IsSeparator separator
    → split_on b':' (stamp separator h m s ms)
      ≡ field h 2 ∷ field m 2 ∷ tail_fields separator s ms ∷ []
split-stamp separator h m s ms k =
    split_on-append b':' (field h 2) _ (Lacks-field b':' h 2 (λ d. omega arith))
    ∙ ap (◌∷◌ (field h 2)) (
        split_on-append b':' (field m 2) _ (Lacks-field b':' m 2 (λ d. omega arith))
        ∙ ap (◌∷◌ (field m 2))
            (split_on_last b':' (tail_fields separator s ms) (Lacks-tail_fields separator s ms k)))

split-tail_fields :
    (separator s ms : ℕ)
    → IsSeparator separator
    → split_on separator (tail_fields separator s ms) ≡ field s 2 ∷ field ms 3 ∷ []
split-tail_fields separator s ms k =
    split_on-append separator (field s 2) _ (Lacks-field separator s 2 (λ d. omega arith))
    ∙ ap (◌∷◌ (field s 2))
        (split_on_last separator (field ms 3) (Lacks-field separator ms 3 (λ d. omega arith)))

read-stamp :
    (separator h m s ms : ℕ)
    → IsSeparator separator
    → read_timestamp separator (stamp separator h m s ms)
      ≡ some (((h * 60 + m) * 60 + s) * 1000 + ms)
unfolding read_timestamp
read-stamp separator h m s ms k =
    simp (split-stamp separator h m s ms k, split-tail_fields separator s ms k, read-pad_start)

-- Reading a written timestamp gives the number of milliseconds back.
pub read_timestamp-format_ms :
    (t separator : ℕ)
    → IsSeparator separator
    → read_timestamp separator (format_ms (pos t) separator) ≡ some t
unfolding stamp_ms
read_timestamp-format_ms t separator k =
    rw format_ms-pos (read-stamp separator _ _ _ _ k ∙ ap some (omega arith))

pub format_ms-IsStampUnit :
    (t separator : ℕ) → IsSeparator separator → All IsStampUnit (format_ms (pos t) separator)
unfolding stamp_ms
format_ms-IsStampUnit t separator k = rw format_ms-pos (
    joined _ _ _ (omega arith)
      (joined _ _ _ (omega arith) (joined _ _ _ (omega arith) (of_field _ 3))))
  where
    of_field : (n width : ℕ) → All IsStampUnit (field n width)
    of_field n width =
        All-weaken (field n width) (λ a d. (omega arith, omega arith)) (pad_start-IsDigit n width)

    joined :
        (n c : ℕ) (t : Text)
        → IsStampUnit c
        → All IsStampUnit t
        → All IsStampUnit (field n 2 ++ c ∷ t)
    joined n c t h u = All-append IsStampUnit (field n 2) (c ∷ t) (of_field n 2) (h, u)

-- A text of the form hh:mm:ss<separator>mmm, at least two digits for the hours and exactly two, two
-- and three for the rest, whose minutes and seconds are below 60, and which stands for `t`
-- milliseconds.
pub record IsTimestamp (separator t : ℕ) (text : Text) : Type 0 where
  pub hh : Text
  pub mm : Text
  pub ss : Text
  pub mmm : Text
  pub joined : text ≡ hh ++ b':' ∷ (mm ++ b':' ∷ (ss ++ separator ∷ mmm))
  pub all_digits : All IsDigit hh × All IsDigit mm × All IsDigit ss × All IsDigit mmm
  pub wide : 2 ≤ length hh
  pub widths : (length mm ≡ 2) × (length ss ≡ 2) × (length mmm ≡ 3)
  pub in_range : (read mm < 60) × (read ss < 60)
  pub value : ((read hh * 60 + read mm) * 60 + read ss) * 1000 + read mmm ≡ t

stamp_ms-IsTimestamp : (t separator : ℕ) → IsTimestamp separator t (stamp_ms separator t)
unfolding stamp_ms
stamp_ms-IsTimestamp t separator = record {
  hh = field (t / 1000 / 3600) 2;
  mm = field (t / 1000 / 60 % 60) 2;
  ss = field (t / 1000 % 60) 2;
  mmm = field (t % 1000) 3;
  joined = refl;
  all_digits =
      (pad_start-IsDigit _ 2, pad_start-IsDigit _ 2, pad_start-IsDigit _ 2, pad_start-IsDigit _ 3);
  wide = length-pad_two-ge _;
  widths = (
    length-pad_two _ (omega arith),
    length-pad_two _ (omega arith),
    length-pad_three _ (omega arith),
  );
  in_range = (
    omega (arith, read-pad_start (t / 1000 / 60 % 60) 2),
    omega (arith, read-pad_start (t / 1000 % 60) 2),
  );
  value = omega (
    arith,
    read-pad_start (t / 1000 / 3600) 2,
    read-pad_start (t / 1000 / 60 % 60) 2,
    read-pad_start (t / 1000 % 60) 2,
    read-pad_start (t % 1000) 3,
  );
}

-- For a time that rounds to `t` milliseconds, `t` not negative, `formatTimestamp` gives a text of the
-- form hh:mm:ss<separator>mmm that stands for exactly `t` milliseconds: the rounding carries into
-- the seconds, minutes and hours, and the minutes and seconds stay below 60.
pub format_timestamp-IsTimestamp :
    (F : Floats) (seconds : F.Number) (separator t : ℕ)
    → F.round (F.times seconds (F.of_ℕ 1000)) ≡ pos t
    → IsTimestamp separator t (format_timestamp F seconds separator)
unfolding format_timestamp
format_timestamp-IsTimestamp F seconds separator t e =
    rw (e, format_ms-pos t separator) (stamp_ms-IsTimestamp t separator)
