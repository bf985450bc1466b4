-- ===== src/Auth.antt =====
-- api/src/auth/api-key.guard.ts and public.decorator.ts.
pub mod Keys
mod Tests
use scribeflow.Prelude.{Bool, true, false, [], ◌∷◌, Option, none, some, ◌==◌, if◌then◌else◌, length}
use scribeflow.Text.{Text, codes, text_eq}
use scribeflow.Text.Utf8.{Bytes, utf8}

-- The metadata key that `Public()` sets to true on a handler or a controller.
abbrev pub is_public_key : Text
is_public_key = codes "isPublic"

-- What the guard asks the framework about a request: `reflector.getAllAndOverride` at a metadata
-- key for the handler and its class, and `request.header` at a header name; none is undefined.
pub record ExecutionContext : Type 0 where
  pub reflected : Text → Option Bool
  pub header : Text → Option Text

-- `canActivate` returns true, throws the HTTP error 401, or lets another exception escape.
pub data Verdict : Type 0 where
  granted : Verdict
  unauthorized : Text → Verdict
  crashed : Verdict

-- `timingSafeEqual` throws a RangeError (none) at buffers of different lengths.
unfoldable pub timing_safe_equal : Bytes → Bytes → Option Bool
unfolding text_eq
timing_safe_equal a b = if length a == length b then some (text_eq a b) else none

unfoldable pub constant_time_equals : Text → Text → Option Bool
unfolding timing_safe_equal
constant_time_equals a b =
    let buf_a = utf8 a in
    let buf_b = utf8 b in
    if length buf_a == length buf_b then timing_safe_equal buf_a buf_b else some false

abbrev pub rejected : Verdict
rejected = unauthorized (codes "Missing or invalid API key")

-- `!provided || !constantTimeEquals(provided, expected)`, for a header that is there.
abbrev pub check_provided : Text → Text → Verdict
check_provided [] expected = rejected
check_provided (c ∷ s) expected = elim (constant_time_equals (c ∷ s) expected) [
  | none ↦ crashed
  | some true ↦ granted
  | some false ↦ rejected
]

abbrev pub check_header : Option Text → Text → Verdict
check_header none expected = rejected
check_header (some provided) expected = check_provided provided expected

-- `if (isPublic) return true`.
abbrev pub unless_public : Option Bool → Verdict → Verdict
unless_public (some true) otherwise = granted
unless_public _ otherwise = otherwise

-- `expected` is the configured API_KEY.
unfoldable pub can_activate : Text → ExecutionContext → Verdict
can_activate expected context =
    unless_public (context.reflected is_public_key)
      (check_header (context.header (codes "x-api-key")) expected)
