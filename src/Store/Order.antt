-- ===== src/Store/Order.antt =====
-- Lists of jobs with the newest first: insertion sort, and what its pages keep.
use scribeflow.Prelude.{
  ℕ, zero, suc, ◌≤◌, List, [], ◌∷◌, arith, leb, if◌then◌else◌, inl, inr, Bool-cases, take, drop,
  All, All-weaken,
}
use scribeflow.Jobs.{Job}
use scribeflow.Store.{Direction, asc, desc, IsNewestFirst}

module _ {Number : Type 0} where
  unfoldable pub place : Job Number → List (Job Number) → List (Job Number)
  place job [] = job ∷ []
  place job (row ∷ rows) =
      if leb row.created_at job.created_at then job ∷ row ∷ rows else row ∷ place job rows

  unfoldable pub newest_first : List (Job Number) → List (Job Number)
  newest_first [] = []
  newest_first (job ∷ rows) = place job (newest_first rows)

  -- The rows the other way round, put before others.
  unfoldable pub reversed : List (Job Number) → List (Job Number) → List (Job Number)
  reversed [] others = others
  reversed (job ∷ rows) others = reversed rows (job ∷ others)

  unfoldable pub ordered : Direction → List (Job Number) → List (Job Number)
  ordered desc rows = newest_first rows
  ordered asc rows = reversed (newest_first rows) []

  module _ (P : Job Number → Type 0) where
    All-place :
        (job : Job Number) (rows : List (Job Number)) → P job → All P rows → All P (place job rows)
    unfolding place
    All-place job [] p h = (p, tt)
    All-place job (row ∷ rows) p (q, h) = ground (arith, All-place job rows p h)

    All-newest_first : (rows : List (Job Number)) → All P rows → All P (newest_first rows)
    unfolding newest_first
    All-newest_first [] h = tt
    All-newest_first (job ∷ rows) (p, h) =
        All-place job (newest_first rows) p (All-newest_first rows h)

    All-reversed :
        (rows others : List (Job Number)) → All P rows → All P others → All P (reversed rows others)
    unfolding reversed
    All-reversed [] others h k = k
    All-reversed (job ∷ rows) others (p, h) k = All-reversed rows (job ∷ others) h (p, k)

    pub All-ordered :
        (direction : Direction) (rows : List (Job Number))
        → All P rows
        → All P (ordered direction rows)
    unfolding ordered
    All-ordered desc rows h = All-newest_first rows h
    All-ordered asc rows h = All-reversed (newest_first rows) [] (All-newest_first rows h) tt

    pub All-take : (n : ℕ) (rows : List (Job Number)) → All P rows → All P (take n rows)
    All-take zero rows h = tt
    All-take (suc n) [] h = tt
    All-take (suc n) (job ∷ rows) (p, h) = (p, All-take n rows h)

    pub All-drop : (n : ℕ) (rows : List (Job Number)) → All P rows → All P (drop n rows)
    All-drop zero rows h = h
    All-drop (suc n) [] h = tt
    All-drop (suc n) (job ∷ rows) (p, h) = All-drop n rows h

  place-IsNewestFirst :
      (job : Job Number) (rows : List (Job Number))
      → IsNewestFirst rows
      → IsNewestFirst (place job rows)
  unfolding place
  place-IsNewestFirst job [] h = (tt, tt)
  place-IsNewestFirst job (row ∷ rows) (h, hs) =
      elim (Bool-cases (leb row.created_at job.created_at)) [
        | inl e ↦
            let newer : row.created_at ≤ job.created_at = ground arith in
            rw e ((newer, All-weaken rows (λ b k. omega arith) h), (h, hs))
        | inr e ↦
            let older : job.created_at ≤ row.created_at = ground arith in
            rw e (
              All-place (λ b. b.created_at ≤ row.created_at) job rows older h,
              place-IsNewestFirst job rows hs,
            )
      ]

  pub newest_first-IsNewestFirst : (rows : List (Job Number)) → IsNewestFirst (newest_first rows)
  unfolding newest_first
  newest_first-IsNewestFirst [] = tt
  newest_first-IsNewestFirst (job ∷ rows) =
      place-IsNewestFirst job (newest_first rows) (newest_first-IsNewestFirst rows)

  pub take-IsNewestFirst :
      (n : ℕ) (rows : List (Job Number)) → IsNewestFirst rows → IsNewestFirst (take n rows)
  take-IsNewestFirst zero rows h = tt
  take-IsNewestFirst (suc n) [] h = tt
  take-IsNewestFirst (suc n) (job ∷ rows) (h, hs) =
      (All-take (λ b. b.created_at ≤ job.created_at) n rows h, take-IsNewestFirst n rows hs)

  pub drop-IsNewestFirst :
      (n : ℕ) (rows : List (Job Number)) → IsNewestFirst rows → IsNewestFirst (drop n rows)
  drop-IsNewestFirst zero rows h = h
  drop-IsNewestFirst (suc n) [] h = tt
  drop-IsNewestFirst (suc n) (job ∷ rows) (h, hs) = drop-IsNewestFirst n rows hs
