-- ===== src/Store.antt =====
-- The table of jobs as transcriptions.service.ts uses it, through TypeORM's `Repository<Job>`: an
-- interface with what TypeORM and Postgres document of the calls. The laws fix no order among rows
-- of one creation time, nor which of several completed jobs with one hash is found.
pub mod Order
pub mod Memory
pub mod Journal
use scribeflow.Prelude.{
  ℕ, ◌≤◌, ◌≡◌, ◌≢◌, List, [], ◌∷◌, Option, none, some, if◌then◌else◌, length, All,
}
use scribeflow.Text.{Text, text_eq}
use scribeflow.Jobs.{Job, completed}

-- Newer jobs stand before older ones.
abbrev pub IsNewestFirst : {Number : Type 0} → List (Job Number) → Type 0
IsNewestFirst [] = Unit
IsNewestFirst (a ∷ rest) = All (λ b. b.created_at ≤ a.created_at) rest × IsNewestFirst rest

-- `'ASC'` and `'DESC'` in the order of a query.
pub data Direction : Type 0 where
  asc desc : Direction

pub record JobStore (Number : Type 0) : Type 1 where
  pub Rows : Type 0
  -- `findOneBy({ id })`
  pub find_one_by : Text → Rows → Option (Job Number)
  -- `findOne({ where: { contentHash, status: 'completed' } })`
  pub find_completed : Text → Rows → Option (Job Number)
  -- `save(job)` and `delete(id)`
  pub save : Job Number → Rows → Rows
  pub delete : Text → Rows → Rows
  -- `find({ order: { createdAt: direction }, take, skip })`, of the rows' selected columns
  pub find : Direction → ℕ → ℕ → Rows → List (Job Number)
  pub find_one_by-id :
      (id : Text) (rows : Rows) (job : Job Number) → find_one_by id rows ≡ some job → job.id ≡ id
  pub find_one_by-save :
      (id : Text) (job : Job Number) (rows : Rows)
      → find_one_by id (save job rows)
        ≡ (if text_eq job.id id then some job else find_one_by id rows)
  pub find_one_by-delete :
      (id other : Text) (rows : Rows)
      → find_one_by id (delete other rows)
        ≡ (if text_eq other id then none else find_one_by id rows)
  pub find_completed-eq_some :
      (hash : Text) (rows : Rows) (job : Job Number)
      → find_completed hash rows ≡ some job
      → (job.status ≡ completed)
        × (job.content_hash ≡ some hash)
        × (find_one_by job.id rows ≡ some job)
  pub find_completed-eq_none :
      (hash : Text) (rows : Rows) (id : Text) (job : Job Number)
      → find_completed hash rows ≡ none
      → find_one_by id rows ≡ some job
      → job.content_hash ≡ some hash
      → job.status ≢ completed
  pub length-find :
      (direction : Direction) (take skip : ℕ) (rows : Rows)
      → length (find direction take skip rows) ≤ take
  pub find-IsNewestFirst : (take skip : ℕ) (rows : Rows) → IsNewestFirst (find desc take skip rows)
  pub find-rows :
      (direction : Direction) (take skip : ℕ) (rows : Rows)
      → All (λ job. find_one_by job.id rows ≡ some job) (find direction take skip rows)
