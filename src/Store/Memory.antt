-- ===== src/Store/Memory.antt =====
-- A table of jobs in memory, which shows that the laws of `JobStore` can be met. The first row with
-- an id is the row of that id.
use scribeflow.Prelude.{
  ℕ, ◌≤◌, ◌≡◌, ◌≢◌, ap, ◌∙◌, Bool, true, false, ◌&&◌, List, [], ◌∷◌, Option, none, some, arith,
  if◌then◌else◌, inl, inr, Option-cases, Bool-cases, length, take, drop, All, length-take-le,
}
use scribeflow.Text.{Text, text_eq}
use scribeflow.Text.Equality.{text_eq_iff, text_eq_refl}
use scribeflow.Jobs.{JobStatus, completed, Job}
use scribeflow.Store.{JobStore, Direction, desc, IsNewestFirst}
use scribeflow.Store.Order.{
  newest_first, place, ordered, reversed, All-ordered, All-take, All-drop,
  newest_first-IsNewestFirst, take-IsNewestFirst, drop-IsNewestFirst,
}

abbrev is_completed : JobStatus → Bool
is_completed completed = true
is_completed _ = false

abbrev has_hash : Option Text → Text → Bool
has_hash none hash = false
has_hash (some h) hash = text_eq h hash

has_hash-true : (h : Option Text) (hash : Text) → has_hash h hash ≡ true → h ≡ some hash
has_hash-true none hash e = cc
has_hash-true (some h) hash e = ap {B = Option Text} some ((text_eq_iff h hash).0 e)

has_hash-some : (hash : Text) → has_hash (some hash) hash ≡ true
has_hash-some hash = text_eq_refl hash

module _ {Number : Type 0} where
  unfoldable pub lookup : Text → List (Job Number) → Option (Job Number)
  lookup id [] = none
  lookup id (job ∷ rows) = if text_eq job.id id then some job else lookup id rows

  unfoldable pub erase : Text → List (Job Number) → List (Job Number)
  erase id [] = []
  erase id (job ∷ rows) = if text_eq job.id id then erase id rows else job ∷ erase id rows

  unfoldable pub insert : Job Number → List (Job Number) → List (Job Number)
  insert job rows = job ∷ erase job.id rows

  abbrev matches : Text → Job Number → Bool
  matches hash job = is_completed job.status && has_hash job.content_hash hash

  abbrev pick_row : Text → Option (Job Number) → Option (Job Number) → Option (Job Number)
  pick_row hash none otherwise = otherwise
  pick_row hash (some row) otherwise = if matches hash row then some row else otherwise

  unfoldable pub search_rows : Text → List (Job Number) → List (Job Number) → Option (Job Number)
  search_rows hash rows [] = none
  search_rows hash rows (job ∷ rest) =
      pick_row hash (lookup job.id rows) (search_rows hash rows rest)

  pub lookup-id :
      (id : Text) (rows : List (Job Number)) (job : Job Number)
      → lookup id rows ≡ some job
      → job.id ≡ id
  unfolding lookup
  lookup-id id [] job e = cc
  lookup-id id (row ∷ rows) job e = ground (arith, text_eq_iff row.id id, lookup-id id rows job)

  pub lookup-erase :
      (id other : Text) (rows : List (Job Number))
      → lookup id (erase other rows) ≡ (if text_eq other id then none else lookup id rows)
  unfolding lookup erase
  lookup-erase id other [] = ground arith
  lookup-erase id other (row ∷ rows) = ground (
    arith,
    lookup-erase id other rows,
    text_eq_iff row.id id,
    text_eq_iff row.id other,
    text_eq_iff other id,
  )

  pub lookup-insert :
      (id : Text) (job : Job Number) (rows : List (Job Number))
      → lookup id (insert job rows) ≡ (if text_eq job.id id then some job else lookup id rows)
  unfolding lookup insert
  lookup-insert id job rows = ground (arith, lookup-erase id job.id rows)

  matches-true :
      (hash : Text) (job : Job Number)
      → matches hash job ≡ true
      → (job.status ≡ completed) × (job.content_hash ≡ some hash)
  matches-true hash job e = ground (arith, has_hash-true job.content_hash hash)

  pub search_rows-eq_some :
      (hash : Text) (rows rest : List (Job Number)) (job : Job Number)
      → search_rows hash rows rest ≡ some job
      → (job.status ≡ completed) × (job.content_hash ≡ some hash) × (lookup job.id rows ≡ some job)
  unfolding search_rows
  search_rows-eq_some hash rows [] job e = cc
  search_rows-eq_some hash rows (r ∷ rest) job e = elim (Option-cases (lookup r.id rows)) [
    | inl missing ↦ search_rows-eq_some hash rows rest job (rw missing at e)
    | inr (row, found) ↦ elim (Bool-cases (matches hash row)) [
      | inl m ↦
          let same : row ≡ job = ground arith in
          let (done, hashed) = matches-true hash row m in
          rw (← same)
            (done, hashed, ap (λ i. lookup i rows) (lookup-id r.id rows row found) ∙ found)
      | inr m ↦ search_rows-eq_some hash rows rest job (ground arith)
    ]
  ]

  pick_row-none :
      (hash : Text) (row otherwise : Option (Job Number))
      → pick_row hash row otherwise ≡ none
      → otherwise ≡ none
  pick_row-none hash none otherwise e = e
  pick_row-none hash (some row) otherwise e = ground arith

  search_rows-eq_none :
      (hash : Text) (rows rest : List (Job Number)) (id : Text) (first job : Job Number)
      → search_rows hash rows rest ≡ none
      → lookup id rest ≡ some first
      → lookup id rows ≡ some job
      → job.content_hash ≡ some hash
      → job.status ≢ completed
  unfolding search_rows lookup
  search_rows-eq_none hash rows [] id first job e f l h s = cc
  search_rows-eq_none hash rows (r ∷ rest) id first job e f l h s =
      elim (Bool-cases (text_eq r.id id)) [
        | inl here ↦
            let found : lookup r.id rows ≡ some job =
              ap (λ i. lookup i rows) ((text_eq_iff r.id id).0 here) ∙ l in
            absurd (ground (arith, found, has_hash-some hash))
        | inr other ↦
            search_rows-eq_none hash rows rest id first job
              (pick_row-none hash (lookup r.id rows) _ e) (ground arith) l h s
      ]

  -- The rows that the ids of a table lead to.
  unfoldable pub current : List (Job Number) → List (Job Number) → List (Job Number)
  current rows [] = []
  current rows (job ∷ rest) = elim (lookup job.id rows) [
    | none ↦ current rows rest
    | some row ↦ row ∷ current rows rest
  ]

  unfoldable pub page : Direction → ℕ → ℕ → List (Job Number) → List (Job Number)
  page direction count skip rows = take count (drop skip (ordered direction (current rows rows)))

  All-current :
      (rows rest : List (Job Number))
      → All (λ job. lookup job.id rows ≡ some job) (current rows rest)
  unfolding current
  All-current rows [] = tt
  All-current rows (job ∷ rest) = elim (Option-cases (lookup job.id rows)) [
    | inl e ↦ rw (e, current) (All-current rows rest)
    | inr (row, e) ↦
        rw (e, current)
          (ap (λ i. lookup i rows) (lookup-id job.id rows row e) ∙ e, All-current rows rest)
  ]

  pub page-IsNewestFirst :
      (count skip : ℕ) (rows : List (Job Number)) → IsNewestFirst (page desc count skip rows)
  unfolding page ordered
  page-IsNewestFirst count skip rows =
      take-IsNewestFirst count _ (drop-IsNewestFirst skip _ (newest_first-IsNewestFirst _))

  pub page-rows :
      (direction : Direction) (count skip : ℕ) (rows : List (Job Number))
      → All (λ job. lookup job.id rows ≡ some job) (page direction count skip rows)
  unfolding page
  page-rows direction count skip rows =
      All-take _ count _
        (All-drop _ skip _ (All-ordered _ direction (current rows rows) (All-current rows rows)))

  pub search_rows_complete :
      (hash : Text) (rows : List (Job Number)) (id : Text) (job : Job Number)
      → search_rows hash rows rows ≡ none
      → lookup id rows ≡ some job
      → job.content_hash ≡ some hash
      → job.status ≢ completed
  search_rows_complete hash rows id job e l h =
      search_rows-eq_none hash rows rows id job job e l l h

  pub length-page :
      (direction : Direction) (count skip : ℕ) (rows : List (Job Number))
      → length (page direction count skip rows) ≤ count
  unfolding page
  length-page direction count skip rows = length-take-le count _

module _ (Number : Type 0) where
  unfoldable pub memory : JobStore Number
  unfolding lookup erase insert search_rows page current newest_first place ordered reversed
  memory = record {
    Rows = List (Job Number);
    find_one_by = lookup;
    find_completed = λ hash rows. search_rows hash rows rows;
    save = insert;
    delete = erase;
    find = page;
    find_one_by-id = lookup-id;
    find_one_by-save = lookup-insert;
    find_one_by-delete = lookup-erase;
    find_completed-eq_some = λ hash rows. search_rows-eq_some hash rows rows;
    find_completed-eq_none = search_rows_complete;
    length-find = length-page;
    find-IsNewestFirst = page-IsNewestFirst;
    find-rows = page-rows;
  }
