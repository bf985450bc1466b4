-- ===== src/Api/Proxied/Tests.antt =====
-- Requests of the proxy at a table in memory, with a matcher that splits paths at the slashes.
use scribeflow.Prelude.{
  ◌≡◌, ◌≢◌, refl, sym, subst, ◌∙◌, true, false, append-nil, ◌⊎◌, inl, inr, Bool-cases, List, [],
  ◌∷◌, ◌++◌, Option, none, arith, length, All, All-append, All-weaken,
}
use scribeflow.Prelude.Int.{ℤ}
use scribeflow.Floats.Micros.{micros}
use scribeflow.Text.{Text, codes, text_eq}
use scribeflow.Text.Equality.{text_eq_refl, text_eq_sound}
use scribeflow.Text.Split.{Lacks, split_on, split_on-append, split_on_last}
use scribeflow.Service.Samples.{platform, jobs, id, done}
use scribeflow.Web.Uri.Plain.{IsPlain}
use scribeflow.Api.{differs, fits}
use scribeflow.Api.Samples.{swagger, parts_match, matches, env, turn}
use scribeflow.Api.Proxied.{IsJobProxied, IsExportProxied, handle-received}
use scribeflow.Api.Proxied.Routing.{PassesOn, joined, id_part, RoutesByParts}

split_parts :
    (s : Text) (ss : List Text)
    → Lacks b'/' s
    → All (Lacks b'/') ss
    → split_on b'/' (s ++ joined ss) ≡ s ∷ ss
split_parts s [] h hs = rw (append-nil s) (split_on_last b'/' s h)
split_parts s (t ∷ ts) h (k, ks) =
    rw (split_on-append b'/' s (t ++ joined ts) h, split_parts t ts k ks) refl

split_joined : (ss : List Text) → All (Lacks b'/') ss → split_on b'/' (joined ss) ≡ [] ∷ ss
split_joined ss h = split_parts [] ss tt h

IsPlain-Lacks : (s : Text) → IsPlain s → Lacks b'/' s
IsPlain-Lacks s (_, h) = All-weaken s (λ c p. ground arith) h

pattern-Lacks : (p : Text) → (p ≡ id_part) ⊎ IsPlain p → Lacks b'/' p
pattern-Lacks p (inl e) = subst (Lacks b'/') (sym e) (omega arith)
pattern-Lacks p (inr h) = IsPlain-Lacks p h

plain-ne_id : (s : Text) → IsPlain s → text_eq s id_part ≡ false
unfolding text_eq
plain-ne_id [] (full, _) = absurd (full refl)
plain-ne_id (c ∷ s) (_, (h, _)) = ground arith

parts_match_same : (ss : List Text) → All IsPlain ss → parts_match ss ss ≡ fits []
unfolding parts_match
parts_match_same [] h = refl
parts_match_same (s ∷ ss) (h, hs) = rw (plain-ne_id s h, text_eq_refl s) (parts_match_same ss hs)

parts_match_id :
    (before after : List Text) (id : Text)
    → All IsPlain before
    → All IsPlain after
    → parts_match (before ++ id_part ∷ after) (before ++ id ∷ after) ≡ fits id
unfolding parts_match
parts_match_id [] after id hb ha = rw (parts_match_same after ha) refl
parts_match_id (s ∷ before) after id (h, hb) ha =
    rw (plain-ne_id s h, text_eq_refl s) (parts_match_id before after id hb ha)

parts_match_length : (ps ss : List Text) → length ps ≢ length ss → parts_match ps ss ≡ differs
unfolding parts_match
parts_match_length [] [] h = absurd (h refl)
parts_match_length [] (s ∷ ss) h = refl
parts_match_length (p ∷ ps) [] h = refl
parts_match_length (p ∷ ps) (s ∷ ss) h = rw (parts_match_length ps ss (omega arith)) (ground arith)

matches_joined :
    (ps ss : List Text)
    → All (Lacks b'/') ps
    → All (Lacks b'/') ss
    → matches (codes "GET") (joined ps) (codes "GET") (joined ss) ≡ parts_match ps ss
unfolding matches text_eq parts_match
matches_joined ps ss hp hs = rw (split_joined ps hp, split_joined ss hs) refl

fits_joined :
    (before after : List Text) (id : Text)
    → All IsPlain before
    → All IsPlain after
    → IsPlain id
    → matches
        (codes "GET")
        (joined (before ++ id_part ∷ after))
        (codes "GET")
        (joined (before ++ id ∷ after))
      ≡ fits id
fits_joined before after id hb ha hid =
    let slashless : (ss : List Text) → All IsPlain ss → All (Lacks b'/') ss =
      λ ss h. All-weaken ss IsPlain-Lacks h in
    matches_joined (before ++ id_part ∷ after) (before ++ id ∷ after)
      (All-append (Lacks b'/') before (id_part ∷ after) (slashless before hb)
        (omega arith, slashless after ha))
      (All-append (Lacks b'/') before (id ∷ after) (slashless before hb)
        (IsPlain-Lacks id hid, slashless after ha))
    ∙ parts_match_id before after id hb ha

matches_other_method :
    (method pattern path : Text)
    → method ≢ codes "GET"
    → matches method pattern (codes "GET") path ≡ differs
unfolding matches
matches_other_method method pattern path ne = elim (Bool-cases (text_eq method (codes "GET"))) [
  | inl e ↦ absurd (ne (text_eq_sound method (codes "GET") e))
  | inr e ↦ rw e refl
]

matches-RoutesByParts : RoutesByParts matches
matches-RoutesByParts = record {
  fits_id = fits_joined;
  other_length = λ pattern parts hp hs ne.
      matches_joined pattern parts (All-weaken pattern pattern-Lacks hp)
        (All-weaken parts IsPlain-Lacks hs)
      ∙ parts_match_length pattern parts ne;
  other_method = matches_other_method;
}

swagger-PassesOn : PassesOn swagger
unfolding swagger
swagger-PassesOn method path = refl

abbrev integer_of : Text → Option ℤ
integer_of text = none

id-IsPlain : IsPlain id
id-IsPlain = ground arith

srt-IsPlain : IsPlain (codes "srt")
srt-IsPlain = ground arith

handle-received_example :
    IsJobProxied micros jobs platform env turn
      (λ s. true)
      integer_of
      swagger
      matches
      (codes "http://api:3000")
      id
      done
    × IsExportProxied micros jobs platform env turn
        (λ s. true)
        integer_of
        swagger
        matches
        (codes "http://api:3000")
        id
        (codes "srt")
        done
handle-received_example =
    handle-received micros jobs platform env turn (λ s. true) integer_of swagger matches
      (codes "http://api:3000") id (codes "srt") done swagger-PassesOn matches-RoutesByParts
      (λ q. cc) id-IsPlain srt-IsPlain
