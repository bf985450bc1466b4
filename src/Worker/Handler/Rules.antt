-- ===== src/Worker/Handler/Rules.antt =====
-- Rules for the monad of the handler.
use scribeflow.Prelude.{true, false}
use scribeflow.Text.{Text}
use scribeflow.Worker.Handler.{
  Fate, returns, raises, dies, Outcome, value, exception, died, M, then_with, caught, call,
}

-- What holds in the states that a call can end in holds after it.
module _ {W : Type 0} (Q : W → Type 0) where
  pub call_rule :
      (fate : Fate) (effect : W → W) (w : W) → Q w → Q (effect w) → Q (call fate effect w).1
  call_rule returns effect w q q' = q'
  call_rule (raises true e) effect w q q' = q'
  call_rule (raises false e) effect w q q' = q
  call_rule (dies true) effect w q q' = q'
  call_rule (dies false) effect w q q' = q

  pub call_then_rule :
      {B : Type 0} (fate : Fate) (effect : W → W) (k : Unit {0} → M W B) (w : W)
      → Q w
      → Q (effect w)
      → Q (k tt (effect w)).1
      → Q (then_with (call fate effect w) k).1
  call_then_rule returns effect k w q q' last = last
  call_then_rule (raises true e) effect k w q q' last = q'
  call_then_rule (raises false e) effect k w q q' last = q
  call_then_rule (dies true) effect k w q q' last = q'
  call_then_rule (dies false) effect k w q q' last = q

  pub caught_rule :
      {A : Type 0} (x : Outcome A × W) (handler : Text → M W A)
      → Q x.1
      → ((e : Text) → Q (handler e x.1).1)
      → Q (caught x handler).1
  caught_rule (value a, w) handler q h = q
  caught_rule (exception e, w) handler q h = h e
  caught_rule (died, w) handler q h = q
