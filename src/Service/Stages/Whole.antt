-- ===== src/Service/Stages/Whole.antt =====
-- The stages of a request, one after another, are `create`.
use scribeflow.Prelude.{◌≡◌, arith}
use scribeflow.Store.{JobStore}
use scribeflow.Service.{Outcomes, Platform, World, undo, enqueue, accept, admit, create}
use scribeflow.Service.Stages.{Creation, settled, first_stage, proceed_times}

module _ {Number : Type 0} (S : JobStore Number) (P : Platform Number) (o : Outcomes)
    (c : Creation) where
  -- A request that nothing comes in between: eight calls from its first stage on, however they end,
  -- settle it with the result of `create` and leave the world that `create` leaves.
  pub proceed_times-create :
      (w : World S)
      → let (result, w') = create S P o c.job_id c.now c.file w in
        proceed_times S P 8 o c (first_stage S P c.file) w ≡ (settled result, w')
  unfolding proceed_times first_stage create admit accept enqueue undo
  proceed_times-create w = ground arith
