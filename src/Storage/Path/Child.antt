-- ===== src/Storage/Path/Child.antt =====
-- A plain name joined to a normalised absolute directory is a file in that directory.
use scribeflow.Prelude.{
  ℕ, ◌≡◌, ◌≢◌, refl, sym, ap, ◌∙◌, Bool, true, false, List, [], ◌∷◌, ◌++◌, arith, All, All-append,
  append_assoc, append-nil,
}
use mathlib.Core.List.{reverse, reverse-cons}
use scribeflow.Text.{Text, codes, join}
use scribeflow.Text.Equality.{text_eq_iff}
use scribeflow.Text.Split.{Lacks, split_on, split_on_last, split_on-append}
use scribeflow.Storage.Path.{resolve, walk, ends_in_slash, assemble, normalize, join_path}

-- A segment that is a file name: not empty, not "." or "..", and without a slash.
pub record IsName (s : Text) : Type 0 where
  pub full : s ≢ []
  pub not_dot : s ≢ codes "."
  pub not_dots : s ≢ codes ".."
  pub flat : Lacks b'/' s

-- "/a/b/c": the segments are file names, and there is at least one.
pub record IsDirectory (d : Text) : Type 0 where
  pub head : Text
  pub rest : List Text
  pub names : All IsName (head ∷ rest)
  pub path : d ≡ b'/' ∷ join (codes "/") (head ∷ rest)

resolve-IsName :
    (above : Bool) (stack : List Text) (p : Text) → IsName p → resolve above stack p ≡ p ∷ stack
unfolding resolve
resolve-IsName above stack p h =
    ground (arith, text_eq_iff p [], text_eq_iff p (codes "."), text_eq_iff p (codes ".."))

walk-names :
    (above : Bool) (stack ps : List Text)
    → All IsName ps
    → walk above stack ps ≡ reverse stack ++ ps
unfolding walk
walk-names above stack [] h = sym (append-nil (reverse stack))
walk-names above stack (p ∷ ps) (h, hs) =
    ap (λ st. walk above st ps) (resolve-IsName above stack p h)
    ∙ (walk-names above (p ∷ stack) ps hs
        ∙ (ap (λ r. r ++ ps) (reverse-cons p stack) ∙ append_assoc (reverse stack) (p ∷ []) ps))

split-join :
    (p : Text) (ps : List Text)
    → All IsName (p ∷ ps)
    → split_on b'/' (join (codes "/") (p ∷ ps)) ≡ p ∷ ps
unfolding join
split-join p [] (h, hs) = split_on_last b'/' p h.flat
split-join p (q ∷ ps) (h, hs) =
    split_on-append b'/' p (join (codes "/") (q ∷ ps)) h.flat ∙ ap (◌∷◌ p) (split-join q ps hs)

join-snoc :
    (p : Text) (ps : List Text) (name : Text)
    → join (codes "/") (p ∷ ps ++ name ∷ []) ≡ join (codes "/") (p ∷ ps) ++ b'/' ∷ name
unfolding join
join-snoc p [] name = refl
join-snoc p (q ∷ ps) name =
    ap (λ t. p ++ b'/' ∷ t) (join-snoc q ps name)
    ∙ sym (append_assoc p (b'/' ∷ join (codes "/") (q ∷ ps)) (b'/' ∷ name))

All-names_snoc :
    (ps : List Text) (name : Text) → All IsName ps → IsName name → All IsName (ps ++ name ∷ [])
All-names_snoc ps name hs h = All-append IsName ps (name ∷ []) hs (h, tt)

ends_in_slash-append :
    (s : Text) (c : ℕ) (t : Text) → ends_in_slash (s ++ c ∷ t) ≡ ends_in_slash (c ∷ t)
unfolding ends_in_slash
ends_in_slash-append [] c t = refl
ends_in_slash-append (d ∷ []) c t = refl
ends_in_slash-append (d ∷ e ∷ s) c t = ends_in_slash-append (e ∷ s) c t

ends_in_slash-Lacks : (s : Text) → Lacks b'/' s → ends_in_slash s ≡ false
unfolding ends_in_slash
ends_in_slash-Lacks [] h = refl
ends_in_slash-Lacks (c ∷ []) (h, hs) = ground arith
ends_in_slash-Lacks (c ∷ d ∷ s) (h, hs) = ends_in_slash-Lacks (d ∷ s) hs

assemble-absolute : (x : Text) → x ≢ [] → assemble true false x ≡ b'/' ∷ x
unfolding assemble
assemble-absolute [] h = absurd (h refl)
assemble-absolute (c ∷ s) h = refl

append-ne-nil : (s : Text) (c : ℕ) (t : Text) → s ++ c ∷ t ≢ []
append-ne-nil [] c t e = cc
append-ne-nil (d ∷ s) c t e = cc

normalize-absolute :
    (y : Text)
    → normalize (b'/' ∷ y)
      ≡ assemble true
          (ends_in_slash (b'/' ∷ y))
          (join (codes "/") (walk false [] (split_on b'/' y)))
unfolding normalize
normalize-absolute y = refl

module _ (head : Text) (rest : List Text) (name : Text) (names : All IsName (head ∷ rest))
    (h : IsName name) where
  child : Text
  child = join (codes "/") (head ∷ rest) ++ b'/' ∷ name

  join-walk-child : join (codes "/") (walk false [] (split_on b'/' child)) ≡ child
  unfolding child
  join-walk-child =
      let all = All-names_snoc (head ∷ rest) name names h in
      ap (λ y. join (codes "/") (walk false [] (split_on b'/' y))) (sym (join-snoc head rest name))
      ∙ (ap (λ ps. join (codes "/") (walk false [] ps)) (split-join head (rest ++ name ∷ []) all)
          ∙ (ap (join (codes "/")) (walk-names false [] (head ∷ rest ++ name ∷ []) all)
              ∙ join-snoc head rest name))

  ends_in_slash-child : ends_in_slash (b'/' ∷ child) ≡ false
  unfolding child ends_in_slash
  ends_in_slash-child =
      ends_in_slash-append (b'/' ∷ join (codes "/") (head ∷ rest)) b'/' name
      ∙ (ends_in_slash-append (b'/' ∷ []) b'/' name ∙ ends_in_slash_name name h.full h.flat)
    where
      ends_in_slash_name :
          (t : Text) → t ≢ [] → Lacks b'/' t → ends_in_slash (b'/' ∷ b'/' ∷ t) ≡ false
      ends_in_slash_name [] full flat = absurd (full refl)
      ends_in_slash_name (c ∷ t) full flat = ends_in_slash-Lacks (c ∷ t) flat

  normalize-child : normalize (b'/' ∷ child) ≡ b'/' ∷ child
  normalize-child =
      normalize-absolute child
      ∙ (ap (λ b. assemble true b (join (codes "/") (walk false [] (split_on b'/' child))))
            ends_in_slash-child
          ∙ (ap (assemble true false) join-walk-child
              ∙ assemble-absolute child
                  (unfold child in append-ne-nil (join (codes "/") (head ∷ rest)) b'/' name)))

-- A file name joined to a directory given by a normalised absolute path is that path, a slash and
-- the name: nothing of it is dropped or climbs out of the directory.
pub join_path-IsName :
    (dir name : Text) → IsDirectory dir → IsName name → join_path dir name ≡ dir ++ b'/' ∷ name
unfolding join_path child
join_path-IsName dir [] d h = absurd (h.full refl)
join_path-IsName dir (c ∷ name) d h =
    ap (λ x. join_path x (c ∷ name)) d.path
    ∙ (join_path-absolute (join (codes "/") (d.head ∷ d.rest))
        ∙ (normalize-child d.head d.rest (c ∷ name) d.names h
            ∙ ap (λ x. x ++ b'/' ∷ c ∷ name) (sym d.path)))
  where
    join_path-absolute :
        (y : Text) → join_path (b'/' ∷ y) (c ∷ name) ≡ normalize (b'/' ∷ (y ++ b'/' ∷ c ∷ name))
    join_path-absolute y = refl
