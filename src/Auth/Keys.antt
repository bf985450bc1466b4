-- ===== src/Auth/Keys.antt =====
-- Who passes the guard.
use scribeflow.Prelude.{
  some_inj, ◌≡◌, ◌≢◌, ◌↔◌, ◌⊎◌, Bool, true, false, [], ◌∷◌, Option, none, some, arith, All, refl,
  sym, ap, ◌∙◌, inl, inr,
}
use scribeflow.Text.{Text, codes}
use scribeflow.Text.Equality.{text_eq_iff}
use scribeflow.Text.Utf8.{utf8, utf8-inj, IsScalarUnit}
use scribeflow.Auth.{
  is_public_key, ExecutionContext, granted, constant_time_equals, can_activate, check_header,
  check_provided, unless_public, rejected,
}

-- The comparison never throws, and compares the bytes.
constant_time_equals-bytes :
    (a b : Text)
    → ((constant_time_equals a b ≡ some true) × (utf8 a ≡ utf8 b))
      ⊎ ((constant_time_equals a b ≡ some false) × (utf8 a ≢ utf8 b))
unfolding constant_time_equals
constant_time_equals-bytes a b = ground (arith, text_eq_iff (utf8 a) (utf8 b))

-- The header carries a key, not the empty text, with the bytes of the expected one.
abbrev pub HasKey : Option Text → Text → Type 0
HasKey header expected = (k : Text) × (header ≡ some k) × (k ≢ []) × (utf8 k ≡ utf8 expected)

check_provided_cases :
    (k expected : Text)
    → ((check_provided k expected ≡ granted) × (k ≢ []) × (utf8 k ≡ utf8 expected))
      ⊎ ((check_provided k expected ≡ rejected) × ((k ≡ []) ⊎ (utf8 k ≢ utf8 expected)))
check_provided_cases [] expected = inr (refl, inl refl)
check_provided_cases (c ∷ s) expected = elim (constant_time_equals-bytes (c ∷ s) expected) [
  | inl (e, same) ↦ inl (rw (e, check_provided) refl, (λ q. cc), same)
  | inr (e, differ) ↦ inr (rw (e, check_provided) refl, inr differ)
]

check_header_cases :
    (header : Option Text) (expected : Text)
    → ((check_header header expected ≡ granted) × HasKey header expected)
      ⊎ ((check_header header expected ≡ rejected) × ¬ HasKey header expected)
check_header_cases none expected = inr (refl, λ (k, e, full, same). cc)
check_header_cases (some k) expected = elim (check_provided_cases k expected) [
  | inl (e, full, same) ↦ inl (e, (k, refl, full, same))
  | inr (e, inl empty) ↦ inr (e, λ (j, p, full, same). full (some_inj (sym p) ∙ empty))
  | inr (e, inr differ) ↦ inr (e, λ (j, p, full, same). differ (ap utf8 (some_inj p) ∙ same))
]

unless_public_cases :
    (public : Option Bool) (header : Option Text) (expected : Text)
    → ((unless_public public (check_header header expected) ≡ granted)
        × ((public ≡ some true) ⊎ HasKey header expected))
      ⊎ ((unless_public public (check_header header expected) ≡ rejected)
          × ((public ≡ some true) ⊎ HasKey header expected → ⊥))
unless_public_cases (some true) header expected = inl (refl, inl refl)
unless_public_cases public header expected = elim (check_header_cases header expected) [
  | inl (e, k) ↦ inl (e, inr k)
  | inr (e, n) ↦ inr (e, λ either. elim either [ inl p ↦ cc | inr k ↦ n k ])
]

-- The route is public, or the request carries the key.
abbrev pub IsAllowed : Text → ExecutionContext → Type 0
IsAllowed expected context =
    (context.reflected is_public_key ≡ some true)
    ⊎ HasKey (context.header (codes "x-api-key")) expected

-- The guard grants a request that its route marks public or that carries a non-empty key with the
-- bytes of the expected one, and answers every other request with 401: the comparison of keys
-- never throws, whatever their lengths.
pub can_activate_decides :
    (expected : Text) (context : ExecutionContext)
    → ((can_activate expected context ≡ granted) × IsAllowed expected context)
      ⊎ ((can_activate expected context ≡ rejected) × ¬ IsAllowed expected context)
unfolding can_activate
can_activate_decides expected context =
    unless_public_cases (context.reflected is_public_key) (context.header (codes "x-api-key"))
      expected

-- Where no surrogate stands in the keys, as in header values, which Node reads as Latin-1, a request
-- to a route that is not public is granted exactly when its header is the expected key and that is
-- not empty.
pub can_activate_iff :
    (expected : Text) (context : ExecutionContext)
    → context.reflected is_public_key ≢ some true
    → All IsScalarUnit expected
    → ((k : Text) → context.header (codes "x-api-key") ≡ some k → All IsScalarUnit k)
    → (can_activate expected context ≡ granted)
      ↔ ((context.header (codes "x-api-key") ≡ some expected) × (expected ≢ []))
can_activate_iff expected context private plain plain_header = (sound, complete)
  where
    sound :
        can_activate expected context ≡ granted
        → (context.header (codes "x-api-key") ≡ some expected) × (expected ≢ [])
    sound g = elim (can_activate_decides expected context) [
      | inl (_, inl p) ↦ absurd (private p)
      | inl (_, inr (k, e, full, same)) ↦
          let equal = utf8-inj k expected (plain_header k e) plain same in
          (e ∙ ap {B = Option Text} some equal, λ q. full (equal ∙ q))
      | inr (r, _) ↦ cc
    ]

    complete :
        (context.header (codes "x-api-key") ≡ some expected) × (expected ≢ [])
        → can_activate expected context ≡ granted
    complete (e, full) = elim (can_activate_decides expected context) [
      | inl (g, _) ↦ g
      | inr (_, n) ↦ absurd (n (inr (expected, e, full, refl)))
    ]
