-- ===== src/Worker/Handler/Diagram/Clean.antt =====
-- The calls of a delivery that keep to the diagram of README.md.
use scribeflow.Prelude.{◌≡◌, false}
use scribeflow.Worker.Handler.{Fate, raises, Fates}

abbrev pub NeverRaises : Fate → Type 0
NeverRaises (raises applied e) = ⊥
NeverRaises _ = Unit {0}

-- A call that raises has had no effect.
abbrev pub IsClean : Fate → Type 0
IsClean (raises applied e) = applied ≡ false
IsClean _ = Unit {0}

-- The row can be marked, `complete` does not raise after its effect, and the acknowledgement behind
-- it does not raise.
pub record AreClean {Number : Type 0} (o : Fates Number) : Type 0 where
  pub marks : NeverRaises o.marks
  pub completes : IsClean o.completes
  pub acks : NeverRaises o.acks
