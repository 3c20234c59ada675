-- ===== src/Pool/Runs.antt =====
-- The theorems on the pool at concrete inputs.
use h2ts.Common.{◌==◌, ◌≡◌, refl, true, false, [], ◌∷◌, some, none}
use h2ts.Errors.{ok}
use h2ts.Pool.{Connections, PoolState, Pool, Step, Steps, Route, route, land, empty_pool}
use h2ts.Pool.Reach.{IsPool, new_pool, Steps-IsPool}
use h2ts.Pool.Stalls.{dropped_stalls}

-- Connection 5 has a free slot, and every other one is full.
abbrev five_is_free : Connections
five_is_free c = record { is_closed = false; can_open = c == 5 }

abbrev awaiting : PoolState
awaiting = record empty_pool { opening = true }

abbrev first_opens : Steps 2 new_pool (record { state = awaiting; opener = some 7 })
unfolding route
first_opens = Steps.then_step Steps.here (Step.requested five_is_free 7)

Steps-IsPool_example : IsPool 2 (land awaiting (ok 5))
Steps-IsPool_example =
    Steps-IsPool 2 (record { state = land awaiting (ok 5); opener = none })
      (Steps.then_step first_opens (Step.landed 7 (ok 5)))

abbrev two_connections : PoolState
two_connections = record { conns = 4 ∷ 5 ∷ []; opening = false; open_waiters = []; woken = [] }

routed_to_five : (route five_is_free 2 two_connections 8).0 ≡ Route.issued 5
unfolding route
routed_to_five = refl

-- Another request comes, and waits for good.
abbrev parked_for_good : Pool
parked_for_good = record { state = record awaiting { open_waiters = 8 ∷ [] }; opener = none }

abbrev second_waits : Steps 2 (record { state = awaiting; opener = none }) parked_for_good
unfolding route
second_waits = Steps.then_step Steps.here (Step.requested five_is_free 8)

dropped_stalls_example :
    (parked_for_good.opener ≡ none)
    × (parked_for_good.state.opening ≡ true)
    × (parked_for_good.state.woken ≡ awaiting.woken)
dropped_stalls_example = dropped_stalls 2 7 awaiting parked_for_good first_opens second_waits
