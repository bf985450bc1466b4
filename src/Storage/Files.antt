-- ===== src/Storage/Files.antt =====
-- The laws of the files: what a path holds after an operation.
use scribeflow.Prelude.{
  ◌≡◌, refl, sym, ◌∙◌, some_inj, Bool, true, false, [], ◌∷◌, none, some, arith, if◌then◌else◌,
  Option-cases, inl, inr,
}
use scribeflow.Text.{Text, text_eq}
use scribeflow.Text.Equality.{text_eq_iff}
use scribeflow.Text.Utf8.{Bytes}
use scribeflow.Storage.{Files, file_at, unlink, rename, remove}

pub file_at-unlink :
    (p q : Text) (files : Files)
    → file_at p (unlink q files) ≡ (if text_eq q p then none else file_at p files)
unfolding file_at unlink
file_at-unlink p q [] = ground arith
file_at-unlink p q ((r, bytes) ∷ files) =
    ground (arith, file_at-unlink p q files, text_eq_iff r q, text_eq_iff r p, text_eq_iff q p)

pub file_at-remove :
    (ok : Bool) (p q : Text) (files : Files)
    → file_at p (remove ok q files)
      ≡ (if ok then (if text_eq q p then none else file_at p files) else file_at p files)
unfolding remove
file_at-remove true p q files = file_at-unlink p q files
file_at-remove false p q files = refl

file_at-cons :
    (p q : Text) (bytes : Bytes) (files : Files)
    → file_at p ((q, bytes) ∷ files) ≡ (if text_eq q p then some bytes else file_at p files)
unfolding file_at
file_at-cons p q bytes files = refl

pub rename-eq_some :
    (from to : Text) (bytes : Bytes) (files : Files)
    → file_at from files ≡ some bytes
    → rename from to files ≡ some ((to, bytes) ∷ unlink to (unlink from files))
unfolding rename
rename-eq_some from to bytes files e = rw (e, rename) refl

-- A rename that succeeds moves the content, replaces what was there and leaves the rest alone.
pub file_at-rename :
    (p from to : Text) (files moved : Files)
    → rename from to files ≡ some moved
    → file_at p moved ≡ (
        if text_eq to p
        then file_at from files
        else if text_eq from p
        then none
        else file_at p files)
unfolding rename
file_at-rename p from to files moved e = elim (Option-cases (file_at from files)) [
  | inl q ↦ absurd (ground arith)
  | inr (bytes, q) ↦
      rw (← some_inj (sym (rename-eq_some from to bytes files q) ∙ e), file_at-cons)
        (ground (arith, q, file_at-unlink p to (unlink from files), file_at-unlink p from files))
]
