-- ===== src/Web/Clock.antt =====
-- `formatClock` of web/app/page.tsx.
use scribeflow.Prelude.{
  ℕ, ◌+◌, ◌*◌, ◌/◌, ◌%◌, ◌≡◌, Bool, false, List, [], ◌∷◌, ◌++◌, arith, ltb, if◌then◌else◌,
  All-weaken, Bool-cases, inl, inr,
}
use scribeflow.Prelude.Int.{ℤ, pos, negsuc, rem, floor_div}
use scribeflow.Floats.{Floats}
use scribeflow.Text.{Text, to_decimal, to_string, pad_start}
use scribeflow.Text.Decimal.{
  read, read-to_decimal, read-pad_start, to_decimal-IsDigit, pad_start-IsDigit,
}
use scribeflow.Text.Split.{Lacks, split_on, split_on-append, split_on_last}
use scribeflow.Subtitles.{padded}

abbrev is_positive : ℤ → Bool
is_positive (pos n) = ltb 0 n
is_positive (negsuc n) = false

-- `formatClock` from the rounded-down number of seconds on.
unfoldable pub format_seconds : ℤ → Text
unfolding padded rem floor_div to_string
format_seconds total =
    let h = floor_div total 3600 in
    let m = rem (floor_div total 60) 60 in
    let s = rem total 60 in
    let mmss = padded m 2 ++ b':' ∷ padded s 2 in
    if is_positive h then to_string h ++ b':' ∷ mmss else mmss

module _ (F : Floats) where
  open F use {Number, floor}

  unfoldable pub format_clock : Number → Text
  unfolding format_seconds
  format_clock seconds = format_seconds (floor seconds)

-- The number of seconds that the parts of a clock time stand for.
seconds_from : ℕ → List Text → ℕ
seconds_from acc [] = acc
seconds_from acc (part ∷ parts) = seconds_from (acc * 60 + read part) parts

pub read_clock : Text → ℕ
unfolding seconds_from
read_clock t = seconds_from 0 (split_on b':' t)

Lacks-pad_start : (n : ℕ) → Lacks b':' (pad_start (to_decimal n) 2 b'0')
Lacks-pad_start n = All-weaken _ (λ d k. omega arith) (pad_start-IsDigit n 2)

Lacks-to_decimal : (n : ℕ) → Lacks b':' (to_decimal n)
Lacks-to_decimal n = All-weaken _ (λ d k. omega arith) (to_decimal-IsDigit n)

abbrev mmss_of : ℕ → ℕ → Text
mmss_of m s = pad_start (to_decimal m) 2 b'0' ++ b':' ∷ pad_start (to_decimal s) 2 b'0'

split-mmss_of :
    (m s : ℕ)
    → split_on b':' (mmss_of m s)
      ≡ pad_start (to_decimal m) 2 b'0' ∷ pad_start (to_decimal s) 2 b'0' ∷ []
split-mmss_of m s = simp (
  split_on-append b':' (pad_start (to_decimal m) 2 b'0') (pad_start (to_decimal s) 2 b'0')
      (Lacks-pad_start m),
  split_on_last b':' (pad_start (to_decimal s) 2 b'0') (Lacks-pad_start s),
)

read_clock-mmss_of : (m s : ℕ) → read_clock (mmss_of m s) ≡ m * 60 + s
unfolding read_clock seconds_from
read_clock-mmss_of m s =
    rw (split-mmss_of m s, read-pad_start m 2, read-pad_start s 2) (omega arith)

read_clock_hours :
    (h m s : ℕ) → read_clock (to_decimal h ++ b':' ∷ mmss_of m s) ≡ (h * 60 + m) * 60 + s
unfolding read_clock seconds_from
read_clock_hours h m s =
    rw
      (
        split_on-append b':' (to_decimal h) (mmss_of m s) (Lacks-to_decimal h),
        split-mmss_of m s,
        read-to_decimal h,
        read-pad_start m 2,
        read-pad_start s 2,
      )
      (omega arith)

read_clock-format_seconds : (n : ℕ) → read_clock (format_seconds (pos n)) ≡ n
unfolding format_seconds padded rem floor_div to_string
read_clock-format_seconds n = elim (Bool-cases (ltb 0 (n / 3600))) [
  | inl e ↦ rw (e, read_clock_hours (n / 3600) (n / 60 % 60) (n % 60)) (omega arith)
  | inr e ↦ rw (e, read_clock-mmss_of (n / 60 % 60) (n % 60)) (ground arith)
]

module _ (F : Floats) where
  open F use {Number, floor}

  -- A clock time, read as hours, minutes and seconds or as minutes and seconds, is the number of
  -- whole seconds that it was made from, if that is not negative.
  pub read_clock-format_clock :
      (seconds : Number) (n : ℕ) → floor seconds ≡ pos n → read_clock (format_clock F seconds) ≡ n
  unfolding format_clock
  read_clock-format_clock seconds n e = rw e (read_clock-format_seconds n)
