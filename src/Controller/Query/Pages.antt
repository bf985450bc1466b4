-- ===== src/Controller/Query/Pages.antt =====
-- The pages of the list of jobs that a client can get.
use scribeflow.Prelude.{
  ℕ, ◌≤◌, ◌≡◌, ◌⊎◌, ◌↔◌, refl, map, inl, inr, true, List, [], Option, none, some, length, All,
  arith, Option-cases,
}
use scribeflow.Prelude.Int.{ℤ, pos, negsuc}
use scribeflow.Floats.{Floats}
use scribeflow.Jobs.{JobSummaryDto, to_job_summary}
use scribeflow.Store.{JobStore, desc}
use scribeflow.Service.{Result, ok, Outcomes, Platform, World}
use scribeflow.Controller.Export.{answered}
use scribeflow.Controller.Listing.{IsNewestFirstSummary, IsSummaryOfRow, list_jobs-eq_ok}
use scribeflow.Controller.{Response}
use scribeflow.Controller.Query.{
  checked_limit, checked_offset, limit_of, offset_of, list_query, list_request,
}

module _ {Value : Type 0} (integer_of : Value → Option ℤ) where
  -- The limits that a client can ask for: 1 to 100, and 20 if it asks for none.
  abbrev pub IsLimit : Option Value → ℕ → Type 0
  IsLimit none n = n ≡ 20
  IsLimit (some value) n = (integer_of value ≡ some (pos n)) × (1 ≤ n) × (n ≤ 100)

  -- The offsets: any integer from 0, and 0 if it asks for none.
  abbrev pub IsOffset : Option Value → ℕ → Type 0
  IsOffset none n = n ≡ 0
  IsOffset (some value) n = integer_of value ≡ some (pos n)

  checked_limit_iff :
      (z : Option ℤ) (n : ℕ)
      → (checked_limit z ≡ some n) ↔ ((z ≡ some (pos n)) × (1 ≤ n) × (n ≤ 100))
  checked_limit_iff none n = ground arith
  checked_limit_iff (some (pos m)) n = ground arith
  checked_limit_iff (some (negsuc m)) n = ground arith

  limit_of_iff :
      (limit : Option Value) (n : ℕ) → (limit_of integer_of limit ≡ some n) ↔ IsLimit limit n
  limit_of_iff none n = ground arith
  limit_of_iff (some value) n = checked_limit_iff (integer_of value) n

  checked_offset_iff : (z : Option ℤ) (n : ℕ) → (checked_offset z ≡ some n) ↔ (z ≡ some (pos n))
  checked_offset_iff none n = ground arith
  checked_offset_iff (some (pos m)) n = ground arith
  checked_offset_iff (some (negsuc m)) n = ground arith

  offset_of_iff :
      (offset : Option Value) (n : ℕ) → (offset_of integer_of offset ≡ some n) ↔ IsOffset offset n
  offset_of_iff none n = ground arith
  offset_of_iff (some value) n = checked_offset_iff (integer_of value) n

  IsLimit-le : (limit : Option Value) (n : ℕ) → IsLimit limit n → n ≤ 100
  IsLimit-le none n e = omega arith
  IsLimit-le (some value) n (e, low, high) = high

  module _ (F : Floats) (S : JobStore F.Number) (P : Platform F.Number) (o : Outcomes)
      (limit offset : Option Value) (w : World S) where
    abbrev Outcome : Type 0
    Outcome = Result (Response (List (JobSummaryDto F.Number))) × World S

    -- The limit or the offset is not one that can be asked for.
    abbrev pub IsBadQuery : Outcome → Type 0
    IsBadQuery (r, w') =
        (((n : ℕ) → ¬ IsLimit limit n) ⊎ ((n : ℕ) → ¬ IsOffset offset n))
        × (answered r ≡ 400)
        × (w' ≡ w)

    -- The page that a query of the table finds with the limit and the offset.
    pub record IsPage (outcome : Outcome) : Type 0 where
      pub take : ℕ
      pub skip : ℕ
      pub page : List (JobSummaryDto F.Number)
      pub limited : IsLimit limit take
      pub shifted : IsOffset offset skip
      pub answer : outcome ≡ (ok (record { status = 200; headers = []; body = page }), w)
      pub found : page ≡ map to_job_summary (S.find desc take skip w.rows)
      pub short : length page ≤ take
      pub at_most : length page ≤ 100
      pub sorted : IsNewestFirstSummary page
      pub rows : All (IsSummaryOfRow F S P o take skip w) page

    -- Whatever the query is, a request for the list is answered, if the table can be read, and
    -- changes nothing. If the limit is given and no integer from 1 to 100, or the offset given and
    -- none from 0, the answer is 400. Otherwise it is 200 with the summaries of the jobs that the
    -- table's query by descending creation time finds with the limit, 20 if none is given, and the
    -- offset, 0 if none is given: at most as many as the limit, so at most 100, the newest first,
    -- each of them the summary of the row of its id.
    pub list_request-IsPage :
        o.finds ≡ true
        → let outcome = list_request integer_of F S P o limit offset w in
          IsBadQuery outcome ⊎ IsPage outcome
    unfolding list_request list_query
    list_request-IsPage f = elim (Option-cases (limit_of integer_of limit)) [
      | inl q ↦
          let none_fits : (n : ℕ) → ¬ IsLimit limit n =
            λ n h. absurd (cc (q, (limit_of_iff limit n).1 h)) in
          inl (inl none_fits, rw q refl, rw q refl)
      | inr (n, q) ↦ elim (Option-cases (offset_of integer_of offset)) [
        | inl r ↦
            let none_fits : (n : ℕ) → ¬ IsOffset offset n =
              λ n h. absurd (cc (r, (offset_of_iff offset n).1 h)) in
            inl (inr none_fits, rw (q, r) refl, rw (q, r) refl)
        | inr (m, r) ↦
            let (page, e, found, short, sorted, rows) = list_jobs-eq_ok F S P o n m w f in
            let fits = (limit_of_iff limit n).0 q in
            inr (record {
              take = n;
              skip = m;
              page = page;
              limited = fits;
              shifted = (offset_of_iff offset m).0 r;
              answer = rw (q, r) e;
              found = found;
              short = short;
              at_most = omega (arith, short, IsLimit-le limit n fits);
              sorted = sorted;
              rows = rows;
            })
      ]
    ]
