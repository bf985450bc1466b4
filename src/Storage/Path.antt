-- ===== src/Storage/Path.antt =====
-- `join` of Node's path module, as storage.service.ts uses it: the two parts with a slash between
-- them, normalised. A stack of segments has its top at the head.
pub mod Child
use scribeflow.Prelude.{Bool, true, false, not, ◌||◌, List, [], ◌∷◌, ◌++◌, ◌==◌, if◌then◌else◌}
use mathlib.Core.List.{reverse}
use scribeflow.Text.{Text, codes, text_eq, join}
use scribeflow.Text.Split.{split_on}

-- "..": drops a segment, or climbs where the path is relative.
pop : Bool → List Text → List Text
pop above [] = if above then codes ".." ∷ [] else []
pop above (top ∷ rest) = if text_eq top (codes "..") then codes ".." ∷ top ∷ rest else rest

resolve : Bool → List Text → Text → List Text
resolve above stack part =
    if text_eq part [] || text_eq part (codes ".")
    then stack
    else if text_eq part (codes "..")
    then pop above stack
    else part ∷ stack

walk : Bool → List Text → List Text → List Text
walk above stack [] = reverse stack
walk above stack (part ∷ parts) = walk above (resolve above stack part) parts

ends_in_slash : Text → Bool
ends_in_slash [] = false
ends_in_slash (c ∷ []) = c == b'/'
ends_in_slash (c ∷ d ∷ s) = ends_in_slash (d ∷ s)

-- The path put together again: absolute or not, with a trailing slash or not.
assemble : Bool → Bool → Text → Text
assemble true trailing [] = codes "/"
assemble false trailing [] = if trailing then codes "./" else codes "."
assemble absolute trailing (c ∷ s) =
    let path = if trailing then (c ∷ s) ++ codes "/" else c ∷ s in
    if absolute then b'/' ∷ path else path

unfoldable pub normalize : Text → Text
unfolding assemble ends_in_slash walk resolve pop join split_on text_eq
normalize [] = codes "."
normalize (c ∷ s) =
    let absolute = c == b'/' in
    assemble absolute (ends_in_slash (c ∷ s))
      (join (codes "/") (walk (not absolute) [] (split_on b'/' (c ∷ s))))

unfoldable pub join_path : Text → Text → Text
join_path [] [] = codes "."
join_path [] (d ∷ b) = normalize (d ∷ b)
join_path (c ∷ a) [] = normalize (c ∷ a)
join_path (c ∷ a) (d ∷ b) = normalize ((c ∷ a) ++ b'/' ∷ d ∷ b)
