-- ===== src/Worker/Retry/Tests.antt =====
-- The decisions of worker/tests/test_retry.py, and those at negative counts.
use scribeflow.Prelude.{◌≡◌, refl, none, some}
use scribeflow.Prelude.Int.{pos, negsuc}
use scribeflow.Worker.Retry.{retry, dead, decide}

decisions :
    (decide (pos 0) ≡ some (retry 10000))
    × (decide (pos 1) ≡ some (retry 30000))
    × (decide (pos 2) ≡ some (retry 90000))
    × (decide (pos 3) ≡ some dead)
    × (decide (pos 99) ≡ some dead)
unfolding decide
decisions = (refl, refl, refl, refl, refl)

-- -1 counts from the end of the tuple, and -4 is out of its range.
negative : (decide (negsuc 0) ≡ some (retry 90000)) × (decide (negsuc 3) ≡ none)
unfolding decide
negative = (refl, refl)
