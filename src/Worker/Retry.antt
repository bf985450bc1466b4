-- ===== src/Worker/Retry.antt =====
-- worker/retry.py. `retry_count` is any integer, since it comes from a header; a negative index of a
-- tuple counts from its end, and one out of range raises an IndexError (none).
mod Tests
use scribeflow.Prelude.{
  ℕ, zero, suc, ◌-◌, Bool, true, List, [], ◌∷◌, Option, none, some, arith, ltb, if◌then◌else◌,
  length,
}
use mathlib.Core.Option
use scribeflow.Prelude.Int.{ℤ, pos, negsuc}

abbrev pub retry_ttls_ms : List ℕ
retry_ttls_ms = 10000 ∷ 30000 ∷ 90000 ∷ []

abbrev pub max_retries : ℕ
max_retries = length retry_ttls_ms

pub data Decision : Type 0 where
  retry : ℕ → Decision
  dead : Decision

abbrev pub get_elem? : List ℕ → ℕ → Option ℕ
get_elem? [] i = none
get_elem? (x ∷ xs) zero = some x
get_elem? (x ∷ xs) (suc i) = get_elem? xs i

-- `RETRY_TTLS_MS[i]` at a natural number and at -(n + 1).
abbrev pub ttl_at : ℤ → Option ℕ
ttl_at (pos n) = get_elem? retry_ttls_ms n
ttl_at (negsuc n) =
    if ltb n max_retries then get_elem? retry_ttls_ms (max_retries - 1 - n) else none

abbrev pub is_below_max : ℤ → Bool
is_below_max (pos n) = ltb n max_retries
is_below_max (negsuc n) = true

unfoldable pub decide : ℤ → Option Decision
decide retry_count =
    if is_below_max retry_count then Option.map retry (ttl_at retry_count) else some dead
