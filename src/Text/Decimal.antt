-- ===== src/Text/Decimal.antt =====
-- Decimal printing is read back, and stays within the width that the program pads to.
use scribeflow.Prelude.{
  ℕ, zero, suc, ◌+◌, ◌-◌, ◌*◌, ◌/◌, ◌%◌, ◌≤◌, ◌<◌, ◌≡◌, refl, ◌∙◌, [], ◌∷◌, ◌++◌, arith, length,
  length-append, length-replicate, replicate, All, All-append, All-replicate,
}
use scribeflow.Text.{Text, digits, to_decimal, pad_start}

-- The value of a text of digits, read after `acc`.
pub read_from : ℕ → Text → ℕ
read_from acc [] = acc
read_from acc (c ∷ s) = read_from (acc * 10 + (c - b'0')) s

pub read : Text → ℕ
unfolding read_from
read s = read_from 0 s

abbrev pub IsDigit : ℕ → Type 0
IsDigit c = (b'0' ≤ c) × (c ≤ b'9')

read_from-append : (acc : ℕ) (s t : Text) → read_from acc (s ++ t) ≡ read_from (read_from acc s) t
unfolding read_from
read_from-append acc [] t = refl
read_from-append acc (c ∷ s) t = read_from-append (acc * 10 + (c - b'0')) s t

read-digits : (fuel n : ℕ) → n < fuel → read_from 0 (digits fuel n) ≡ n
unfolding read_from digits
read-digits zero n h = absurd (omega arith)
read-digits (suc fuel) n h = ground (
  arith,
  read-digits fuel (n / 10),
  read_from-append 0 (digits fuel (n / 10)) ((b'0' + n % 10) ∷ []),
)

-- Printing and reading give the number back.
pub read-to_decimal : (n : ℕ) → read (to_decimal n) ≡ n
unfolding read to_decimal
read-to_decimal n = read-digits (suc n) n (omega arith)

read_from-replicate : (k : ℕ) → read_from 0 (replicate k b'0') ≡ 0
unfolding read_from
read_from-replicate zero = refl
read_from-replicate (suc k) = read_from-replicate k

-- Padding with zeros does not change the value.
pub read-pad_start : (n w : ℕ) → read (pad_start (to_decimal n) w b'0') ≡ n
unfolding read pad_start
read-pad_start n w =
    read_from-append 0 (replicate (w - length (to_decimal n)) b'0') (to_decimal n)
    ∙ rw (read_from-replicate (w - length (to_decimal n))) (read-to_decimal n)

digits-IsDigit : (fuel n : ℕ) → All IsDigit (digits fuel n)
unfolding digits
digits-IsDigit zero n = tt
digits-IsDigit (suc fuel) n = ground (
  arith,
  All-append IsDigit (digits fuel (n / 10)) ((b'0' + n % 10) ∷ []) (digits-IsDigit fuel (n / 10))
      ((omega arith, omega arith), tt),
)

pub to_decimal-IsDigit : (n : ℕ) → All IsDigit (to_decimal n)
unfolding to_decimal
to_decimal-IsDigit n = digits-IsDigit (suc n) n

pub pad_start-IsDigit : (n w : ℕ) → All IsDigit (pad_start (to_decimal n) w b'0')
unfolding pad_start
pad_start-IsDigit n w =
    All-append IsDigit (replicate (w - length (to_decimal n)) b'0') (to_decimal n)
      (All-replicate IsDigit _ b'0' (omega arith)) (to_decimal-IsDigit n)

length-digits_step :
    (fuel n : ℕ)
    → length (digits fuel (n / 10) ++ (b'0' + n % 10) ∷ []) ≡ length (digits fuel (n / 10)) + 1
length-digits_step fuel n =
    omega (arith, length-append (digits fuel (n / 10)) ((b'0' + n % 10) ∷ []))

length-digits_one : (fuel n : ℕ) → n < 10 → length (digits fuel n) ≤ 1
unfolding digits
length-digits_one zero n h = omega arith
length-digits_one (suc fuel) n h = ground arith

length-digits_two : (fuel n : ℕ) → n < 100 → length (digits fuel n) ≤ 2
unfolding digits
length-digits_two zero n h = omega arith
length-digits_two (suc fuel) n h =
    ground (arith, length-digits_step fuel n, length-digits_one fuel (n / 10))

length-digits_three : (fuel n : ℕ) → n < 1000 → length (digits fuel n) ≤ 3
unfolding digits
length-digits_three zero n h = omega arith
length-digits_three (suc fuel) n h =
    ground (arith, length-digits_step fuel n, length-digits_two fuel (n / 10))

length-pad_start : (s : Text) (w : ℕ) → length (pad_start s w b'0') ≡ (w - length s) + length s
unfolding pad_start
length-pad_start s w = omega (
  arith,
  length-append (replicate (w - length s) b'0') s,
  length-replicate {A = ℕ} (w - length s) b'0',
)

-- A number below 100 is padded to exactly two digits, one below 1000 to exactly three.
pub length-pad_two : (n : ℕ) → n < 100 → length (pad_start (to_decimal n) 2 b'0') ≡ 2
unfolding to_decimal
length-pad_two n h = omega (arith, length-pad_start (to_decimal n) 2, length-digits_two (suc n) n h)

pub length-pad_three : (n : ℕ) → n < 1000 → length (pad_start (to_decimal n) 3 b'0') ≡ 3
unfolding to_decimal
length-pad_three n h =
    omega (arith, length-pad_start (to_decimal n) 3, length-digits_three (suc n) n h)

pub length-pad_two-ge : (n : ℕ) → 2 ≤ length (pad_start (to_decimal n) 2 b'0')
length-pad_two-ge n = omega (arith, length-pad_start (to_decimal n) 2)
