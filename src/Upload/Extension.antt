-- ===== src/Upload/Extension.antt =====
-- The extension is what follows the last dot, unless that dot is the first character.
use scribeflow.Prelude.{
  sym, ℕ, suc, ◌+◌, ◌≡◌, ◌≢◌, refl, ap, ◌∙◌, [], ◌∷◌, ◌++◌, none, some, arith, ==_refl, drop,
  length,
}
use native.Mathlib.Decide.{ℕ_discrete}
use native.Mathlib.Numerals.{add-one}
use scribeflow.Text.{Text}
use scribeflow.Text.Split.{Lacks}
use scribeflow.Upload.{last_index_of, to_lower_case, extension_of}

last_index_of-Lacks : (c : ℕ) (s : Text) → Lacks c s → last_index_of c s ≡ none
unfolding last_index_of
last_index_of-Lacks c [] h = refl
last_index_of-Lacks c (d ∷ s) (h, hs) = rw (last_index_of-Lacks c s hs) (ground arith)

last_index_of-append :
    (c : ℕ) (s t : Text) → Lacks c t → last_index_of c (s ++ c ∷ t) ≡ some (length s)
unfolding last_index_of
last_index_of-append c [] t h = rw (last_index_of-Lacks c t h) (ground (arith, ==_refl c))
last_index_of-append c (d ∷ s) t h = rw (last_index_of-append c s t h) refl

-- How a text stands to its last `c`.
data LastSplit (c : ℕ) (s : Text) : Type 0 where
  absent : Lacks c s → LastSplit c s
  split : (before after : Text) → s ≡ before ++ c ∷ after → Lacks c after → LastSplit c s

extend-LastSplit : (c d : ℕ) (s : Text) → LastSplit c s → LastSplit c (d ∷ s)
extend-LastSplit c d s (split before after e h) = split (d ∷ before) after (ap (◌∷◌ d) e) h
extend-LastSplit c d s (absent h) = elim (ℕ_discrete d c) [
  | yes e ↦ split [] s (ap (λ x. x ∷ s) e) h
  | no n ↦ absent (n, h)
]

last_split : (c : ℕ) (s : Text) → LastSplit c s
last_split c [] = absent tt
last_split c (d ∷ s) = extend-LastSplit c d s (last_split c s)

drop-append : (s t : Text) (c : ℕ) → drop (length s + 1) (s ++ c ∷ t) ≡ t
drop-append [] t c = refl
drop-append (d ∷ s) t c = rw (add-one (suc (length s))) (rw add-one at (drop-append s t c))

-- `e` is the extension of `name`: the lower-cased text behind the last dot if something stands
-- before that dot, and empty if there is no dot or if the last dot comes first.
pub data HasExtension (unicode_lower : Text → Text) (name e : Text) : Type 0 where
  suffix :
      (stem ext : Text)
      → stem ≢ []
      → name ≡ stem ++ b'.' ∷ ext
      → Lacks b'.' ext
      → e ≡ to_lower_case unicode_lower ext
      → HasExtension unicode_lower name e
  hidden :
      (ext : Text) → name ≡ b'.' ∷ ext → Lacks b'.' ext → e ≡ [] → HasExtension unicode_lower name e
  no_dot : Lacks b'.' name → e ≡ [] → HasExtension unicode_lower name e

module _ (unicode_lower : Text → Text) where
  extension_of-append :
      (d : ℕ) (stem ext : Text)
      → Lacks b'.' ext
      → extension_of unicode_lower ((d ∷ stem) ++ b'.' ∷ ext) ≡ to_lower_case unicode_lower ext
  unfolding extension_of
  extension_of-append d stem ext h =
      rw (last_index_of-append b'.' (d ∷ stem) ext h)
        (ap (to_lower_case unicode_lower) (drop-append (d ∷ stem) ext b'.'))

  extension_of_first : (ext : Text) → Lacks b'.' ext → extension_of unicode_lower (b'.' ∷ ext) ≡ []
  unfolding extension_of
  extension_of_first ext h = rw (last_index_of-append b'.' [] ext h, extension_of) refl

  extension_of-Lacks : (name : Text) → Lacks b'.' name → extension_of unicode_lower name ≡ []
  unfolding extension_of
  extension_of-Lacks name h = rw (last_index_of-Lacks b'.' name h, extension_of) refl

  of_split :
      (name : Text)
      → LastSplit b'.' name
      → HasExtension unicode_lower name (extension_of unicode_lower name)
  of_split name (absent h) = no_dot h (extension_of-Lacks name h)
  of_split name (split [] ext e h) =
      hidden ext e h (ap (extension_of unicode_lower) e ∙ extension_of_first ext h)
  of_split name (split (d ∷ stem) ext e h) =
      suffix (d ∷ stem) ext (λ q. cc) e h
        (ap (extension_of unicode_lower) e ∙ extension_of-append d stem ext h)

  -- `extensionOf` gives the lower-cased text behind the last dot where that dot is not the first
  -- character, and the empty text where there is no dot or the last dot is the first character.
  pub extension_of-HasExtension :
      (name : Text) → HasExtension unicode_lower name (extension_of unicode_lower name)
  extension_of-HasExtension name = of_split name (last_split b'.' name)

  -- No other text is the extension.
  pub HasExtension-extension_of :
      (name e : Text) → HasExtension unicode_lower name e → extension_of unicode_lower name ≡ e
  HasExtension-extension_of name e (suffix [] ext full n h same) = absurd (full refl)
  HasExtension-extension_of name e (suffix (d ∷ stem) ext full n h same) =
      ap (extension_of unicode_lower) n ∙ extension_of-append d stem ext h ∙ sym same
  HasExtension-extension_of name e (hidden ext n h same) =
      ap (extension_of unicode_lower) n ∙ extension_of_first ext h ∙ sym same
  HasExtension-extension_of name e (no_dot h same) = extension_of-Lacks name h ∙ sym same
