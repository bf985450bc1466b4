-- ===== src/Text/Split.antt =====
-- Splitting a text at a separator, which the readers of the rendered texts use.
use scribeflow.Prelude.{
  ℕ, ◌≡◌, ◌≢◌, refl, List, [], ◌∷◌, ◌++◌, arith, ◌==◌, ==_refl, if◌then◌else◌, All,
}
use scribeflow.Text.{Text}

-- `c` stands nowhere in the text.
abbrev pub Lacks : ℕ → Text → Type 0
Lacks c s = All (λ d. d ≢ c) s

-- Puts a unit at the front of the first part.
abbrev pub extend : ℕ → List Text → List Text
extend c [] = (c ∷ []) ∷ []
extend c (p ∷ ps) = (c ∷ p) ∷ ps

unfoldable pub split_on : ℕ → Text → List Text
split_on sep [] = [] ∷ []
split_on sep (c ∷ s) = if c == sep then [] ∷ split_on sep s else extend c (split_on sep s)

pub split_on_last : (sep : ℕ) (s : Text) → Lacks sep s → split_on sep s ≡ s ∷ []
unfolding split_on
split_on_last sep [] h = refl
split_on_last sep (c ∷ s) (h, hs) = ground (arith, split_on_last sep s hs)

pub split_on-append :
    (sep : ℕ) (s t : Text) → Lacks sep s → split_on sep (s ++ sep ∷ t) ≡ s ∷ split_on sep t
unfolding split_on
split_on-append sep [] t h = ground (arith, ==_refl sep)
split_on-append sep (c ∷ s) t (h, hs) = ground (arith, split_on-append sep s t hs)
