-- ===== src/Flow/Runs.antt =====
-- Runs of the send window, and its theorems at concrete inputs.
use h2ts.Common.{◌≡◌, refl, false, [], ◌∷◌, ◌++◌}
use h2ts.Common.Int.{pos, ◌+ℤ◌, ◌-ℤ◌}
use h2ts.Flow.{SendWindow, new, update, consume, is_ready, register_waker, wake}
use h2ts.Flow.Waiters.{Step, Steps, parked_tasks, Steps-parked}

-- A window of 10 is used up, task 7 waits, and a grant of 5 wakes it.
used_up : is_ready (consume (new (pos 10)) (pos 10)) ≡ false
unfolding is_ready consume ◌-ℤ◌
used_up = refl

abbrev granted : SendWindow
granted = update (register_waker (consume (new (pos 10)) (pos 10)) 7) (pos 5)

granted_woken : granted.woken ≡ 7 ∷ []
unfolding update register_waker consume wake ◌-ℤ◌ ◌+ℤ◌
granted_woken = refl

abbrev run : Steps (new (pos 10)) granted
run =
    Steps.next (Steps.next (Steps.next Steps.done (Step.consumed 10)) (Step.parked 7 used_up))
      (Step.updated (pos 5))

Steps-parked_example : granted.woken ++ granted.wakers ≡ parked_tasks run
Steps-parked_example = Steps-parked (pos 10) granted run
