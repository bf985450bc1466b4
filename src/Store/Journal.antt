-- ===== src/Store/Journal.antt =====
-- A table that also keeps a journal of what is saved into it, so that what code does to the rows can
-- be followed write by write. It is a table as the code uses it, whatever table is below.
use scribeflow.Prelude.{List, ◌∷◌}
use scribeflow.Jobs.{Job}
use scribeflow.Store.{JobStore}

module _ {Number : Type 0} (S : JobStore Number) where
  pub record Journal : Type 0 where
    pub rows : S.Rows
    -- the rows that have been saved, the last one first
    pub written : List (Job Number)

  abbrev pub journaled : JobStore Number
  journaled = record {
    Rows = Journal;
    find_one_by = λ id j. S.find_one_by id j.rows;
    find_completed = λ hash j. S.find_completed hash j.rows;
    save = λ job j. record { rows = S.save job j.rows; written = job ∷ j.written };
    delete = λ id j. record { rows = S.delete id j.rows; written = j.written };
    find = λ direction take skip j. S.find direction take skip j.rows;
    find_one_by-id = λ id j. S.find_one_by-id id j.rows;
    find_one_by-save = λ id job j. S.find_one_by-save id job j.rows;
    find_one_by-delete = λ id other j. S.find_one_by-delete id other j.rows;
    find_completed-eq_some = λ hash j. S.find_completed-eq_some hash j.rows;
    find_completed-eq_none = λ hash j. S.find_completed-eq_none hash j.rows;
    length-find = λ direction take skip j. S.length-find direction take skip j.rows;
    find-IsNewestFirst = λ take skip j. S.find-IsNewestFirst take skip j.rows;
    find-rows = λ direction take skip j. S.find-rows direction take skip j.rows;
  }
