-- ===== src/Text/Equality.antt =====
-- `===` on texts decides equality.
use scribeflow.Prelude.{◌≡◌, ◌⊎◌, refl, ◌↔◌, List, ◌++◌, true, [], ◌∷◌, arith, ==_iff, ==_refl}
use scribeflow.Text.{Text, text_eq, has, starts_with}

pub text_eq_sound : (s t : Text) → text_eq s t ≡ true → s ≡ t
unfolding text_eq
text_eq_sound [] [] h = refl
text_eq_sound [] (b ∷ t) h = cc
text_eq_sound (a ∷ s) [] h = cc
text_eq_sound (a ∷ s) (b ∷ t) h = ground (arith, ==_iff a b, text_eq_sound s t)

pub text_eq_refl : (s : Text) → text_eq s s ≡ true
unfolding text_eq
text_eq_refl [] = refl
text_eq_refl (a ∷ s) = ground (arith, ==_refl a, text_eq_refl s)

pub text_eq_iff : (s t : Text) → (text_eq s t ≡ true) ↔ (s ≡ t)
text_eq_iff s t = (text_eq_sound s t, λ e. rw e (text_eq_refl t))

-- A text is one of the list.
abbrev pub Among : Text → List Text → Type 0
Among s [] = ⊥
Among s (t ∷ ts) = (s ≡ t) ⊎ Among s ts

pub has_iff : (set : List Text) (s : Text) → (has set s ≡ true) ↔ Among s set
has_iff [] s = ground arith
has_iff (t ∷ set) s = ground (arith, text_eq_iff s t, has_iff set s)

pub starts_with_iff :
    (s prefix : Text) → (starts_with s prefix ≡ true) ↔ ((rest : Text) × (s ≡ prefix ++ rest))
unfolding starts_with
starts_with_iff s prefix = (sound s prefix, complete s prefix)
  where
    sound : (s prefix : Text) → starts_with s prefix ≡ true → (rest : Text) × (s ≡ prefix ++ rest)
    sound s [] h = (s, refl)
    sound [] (c ∷ prefix) h = cc
    sound (d ∷ s) (c ∷ prefix) h =
        let (rest, e) = sound s prefix (ground arith) in (rest, ground (arith, ==_iff c d))

    complete :
        (s prefix : Text) → (rest : Text) × (s ≡ prefix ++ rest) → starts_with s prefix ≡ true
    complete s [] (rest, e) = refl
    complete [] (c ∷ prefix) (rest, e) = cc
    complete (d ∷ s) (c ∷ prefix) (rest, e) =
        ground (arith, ==_iff c d, complete s prefix (rest, ground arith))
