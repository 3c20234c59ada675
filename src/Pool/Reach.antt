-- ===== src/Pool/Reach.antt =====
-- rust/crates/h2ts-client/src/pool.rs: what holds of every state that a pool reaches.
use h2ts.Common.{
  ℕ, ◌+◌, ◌≤◌, ◌≡◌, refl, sym, ◌∙◌, true, false, true-ne-false, not, ◌&&◌, if_case, List, [], ◌∷◌,
  Option, some, none, length, length-append, arith, max,
}
use h2ts.Errors.{Outcome, ok, err, panic}
use h2ts.Pool.{
  Connections, PoolState, Route, Pool, Step, Steps, retain_open, find_free, first_at_cap, or_else,
  choose, start_open, issue_or_open, route, last, issue_or_route, after_open, land, empty_pool,
  opener_after, close_all,
}

-- A cap of 0 still allows one connection.
abbrev pub cap : ℕ → ℕ
cap max_connections = max max_connections 1

-- While a connection is being opened there is room for it, and a request waits for an open only
-- while one is under way.
pub record IsPool (max_connections : ℕ) (st : PoolState) : Type 0 where
  pub within : length st.conns ≤ cap max_connections
  pub room : st.opening ≡ true → length st.conns + 1 ≤ cap max_connections
  pub waited : st.opening ≡ false → st.open_waiters ≡ []

or_else-none : (o p : Option ℕ) → or_else o p ≡ none → p ≡ none
or_else-none none p e = e
or_else-none (some c) p e = absurd (ground (arith, e))

module _ (max_connections : ℕ) where
  length-retain_open :
      (status : Connections) (conns : List ℕ) → length (retain_open status conns) ≤ length conns
  length-retain_open status [] = omega arith
  length-retain_open status (c ∷ r) = ground (arith, length-retain_open status r)

  below_cap :
      (conns : List ℕ)
      → first_at_cap max_connections conns ≡ none
      → length conns + 1 ≤ cap max_connections
  below_cap [] e = omega arith
  below_cap (c ∷ r) e = ground (arith, e)

  -- A connection is opened only if the pool is empty or below its cap.
  room_left :
      (status : Connections) (conns : List ℕ)
      → choose status max_connections conns ≡ none
      → length conns + 1 ≤ cap max_connections
  room_left status [] e = omega arith
  room_left status (c ∷ r) e =
      below_cap (c ∷ r)
        (or_else-none (find_free status (c ∷ r)) (first_at_cap max_connections (c ∷ r)) e)

  start_open-IsPool :
      (st : PoolState) (ticket : ℕ)
      → IsPool max_connections st
      → length st.conns + 1 ≤ cap max_connections
      → IsPool max_connections (start_open st ticket).1
  start_open-IsPool st ticket h room =
      if_case (λ (r : Route × PoolState). IsPool max_connections r.1) st.opening
        (λ o. record {
          within = h.within;
          room = h.room;
          waited = λ f. absurd (true-ne-false (sym o ∙ f));
        })
        (λ f. record {
          within = h.within;
          room = λ _. room;
          waited = λ t. absurd (true-ne-false t);
        })

  issue_or_open-IsPool :
      (st : PoolState) (ticket : ℕ) (o : Option ℕ)
      → IsPool max_connections st
      → (o ≡ none → length st.conns + 1 ≤ cap max_connections)
      → IsPool max_connections (issue_or_open st ticket o).1
  issue_or_open-IsPool st ticket none h k = start_open-IsPool st ticket h (k refl)
  issue_or_open-IsPool st ticket (some c) h k = h

  retained :
      (status : Connections) (st : PoolState)
      → IsPool max_connections st
      → IsPool max_connections (record st { conns = retain_open status st.conns })
  retained status st h = record {
    within = omega (arith, h.within, length-retain_open status st.conns);
    room = λ o. omega (arith, h.room o, length-retain_open status st.conns);
    waited = h.waited;
  }

  route-IsPool :
      (status : Connections) (st : PoolState) (ticket : ℕ)
      → IsPool max_connections st
      → IsPool max_connections (route status max_connections st ticket).1
  unfolding route
  route-IsPool status st ticket h =
      let conns = retain_open status st.conns in
      issue_or_open-IsPool (record st { conns = conns }) ticket
        (choose status max_connections conns) (retained status st h) (room_left status conns)

  issue_or_route-IsPool :
      (status : Connections) (st : PoolState) (ticket : ℕ) (o : Option ℕ)
      → IsPool max_connections st
      → IsPool max_connections (issue_or_route status max_connections st ticket o).1
  issue_or_route-IsPool status st ticket none h = route-IsPool status st ticket h
  issue_or_route-IsPool status st ticket (some c) h =
      if_case (λ (r : Route × PoolState). IsPool max_connections r.1)
        (not (status c).is_closed && not (status c).can_open) (λ f. h)
        (λ f. route-IsPool status st ticket h)

  after_open-IsPool :
      (status : Connections) (st : PoolState) (ticket : ℕ)
      → IsPool max_connections st
      → IsPool max_connections (after_open status max_connections st ticket).1
  unfolding after_open
  after_open-IsPool status st ticket h = issue_or_route-IsPool status st ticket (last st.conns) h

  land-IsPool :
      (st : PoolState) (result : Outcome ℕ)
      → IsPool max_connections st
      → st.opening ≡ true
      → IsPool max_connections (land st result)
  unfolding land
  land-IsPool st (ok c) h o = record {
    within = omega (arith, h.room o, length-append st.conns (c ∷ []));
    room = λ t. absurd (true-ne-false (sym t));
    waited = λ _. refl;
  }
  land-IsPool st (err e) h o = record {
    within = h.within;
    room = λ t. absurd (true-ne-false (sym t));
    waited = λ _. refl;
  }
  land-IsPool st panic h o = record {
    within = h.within;
    room = λ t. absurd (true-ne-false (sym t));
    waited = λ _. refl;
  }

-- A request that awaits the factory owns the open.
abbrev IsOwned : Option ℕ → PoolState → Type 0
IsOwned none st = Unit
IsOwned (some ticket) st = st.opening ≡ true

abbrev Owns : Pool → ℕ → Route × PoolState → Type 0
Owns p ticket (r, st) = IsOwned (opener_after p ticket r) st

opening-IsOwned : (o : Option ℕ) (st : PoolState) → st.opening ≡ true → IsOwned o st
opening-IsOwned none st e = tt
opening-IsOwned (some ticket) st e = e

same-IsOwned :
    (o : Option ℕ) (st u : PoolState) → u.opening ≡ st.opening → IsOwned o st → IsOwned o u
same-IsOwned none st u e h = tt
same-IsOwned (some ticket) st u e h = e ∙ h

issue_or_open-Owns :
    (p : Pool) (st : PoolState) (ticket : ℕ) (o : Option ℕ)
    → IsOwned p.opener st
    → Owns p ticket (issue_or_open st ticket o)
issue_or_open-Owns p st ticket (some c) h = h
issue_or_open-Owns p st ticket none h =
    if_case (Owns p ticket) st.opening (λ o. opening-IsOwned p.opener _ o) (λ f. refl)

route-Owns :
    (p : Pool) (status : Connections) (max_connections ticket : ℕ)
    → IsOwned p.opener p.state
    → Owns p ticket (route status max_connections p.state ticket)
unfolding route
route-Owns p status max_connections ticket h =
    let conns = retain_open status p.state.conns in
    issue_or_open-Owns p (record p.state { conns = conns }) ticket
      (choose status max_connections conns)
      (same-IsOwned p.opener p.state (record p.state { conns = conns }) refl h)

issue_or_route-Owns :
    (p : Pool) (status : Connections) (max_connections ticket : ℕ) (o : Option ℕ)
    → IsOwned p.opener p.state
    → Owns p ticket (issue_or_route status max_connections p.state ticket o)
issue_or_route-Owns p status max_connections ticket none h =
    route-Owns p status max_connections ticket h
issue_or_route-Owns p status max_connections ticket (some c) h =
    if_case (Owns p ticket) (not (status c).is_closed && not (status c).can_open) (λ f. h)
      (λ f. route-Owns p status max_connections ticket h)

-- The pool is within its cap, and the request that awaits the factory owns the open.
record IsSound (max_connections : ℕ) (p : Pool) : Type 0 where
  pool : IsPool max_connections p.state
  owned : IsOwned p.opener p.state

Step-IsSound :
    (max_connections : ℕ) {p q : Pool}
    → Step max_connections p q
    → IsSound max_connections p
    → IsSound max_connections q
unfolding after_open
Step-IsSound max_connections {p} (Step.requested status ticket) h = record {
  pool = route-IsPool max_connections status p.state ticket h.pool;
  owned = route-Owns p status max_connections ticket h.owned;
}
Step-IsSound max_connections {p} (Step.resumed status ticket) h = record {
  pool = after_open-IsPool max_connections status p.state ticket h.pool;
  owned = issue_or_route-Owns p status max_connections ticket (last p.state.conns) h.owned;
}
Step-IsSound max_connections (Step.landed {st} ticket result) h = record {
  pool = land-IsPool max_connections st result h.pool h.owned;
  owned = tt;
}
Step-IsSound max_connections (Step.dropped ticket) h = record { pool = h.pool; owned = tt }
Step-IsSound max_connections {p} Step.closed h = record {
  pool = record { within = omega arith; room = λ o. omega arith; waited = h.pool.waited };
  owned = same-IsOwned p.opener p.state (close_all p.state) refl h.owned;
}

Steps_keep :
    (max_connections : ℕ) {p q : Pool}
    → Steps max_connections p q
    → IsSound max_connections p
    → IsSound max_connections q
Steps_keep max_connections Steps.here h = h
Steps_keep max_connections (Steps.then_step s t) h =
    Step-IsSound max_connections t (Steps_keep max_connections s h)

abbrev pub new_pool : Pool
new_pool = record { state = empty_pool; opener = none }

new_pool-IsSound : (max_connections : ℕ) → IsSound max_connections new_pool
new_pool-IsSound max_connections = record {
  pool = record { within = omega arith; room = λ o. omega arith; waited = λ f. refl };
  owned = tt;
}

-- A request that awaits the factory has marked the open.
pub opener-opening :
    (max_connections ticket : ℕ) (st : PoolState)
    → Steps max_connections new_pool (record { state = st; opener = some ticket })
    → st.opening ≡ true
opener-opening max_connections ticket st s =
    (Steps_keep max_connections s (new_pool-IsSound max_connections)).owned

-- In whatever order requests come and resume, connections open, fail to open, fill up and close, and
-- requests are dropped, a new pool never holds more connections than its cap (one, if the cap is 0),
-- keeps room for the one that is being opened, and has requests that wait for an open only while it
-- is marked as under way.
pub Steps-IsPool :
    (max_connections : ℕ) (p : Pool)
    → Steps max_connections new_pool p
    → IsPool max_connections p.state
Steps-IsPool max_connections p s =
    (Steps_keep max_connections s (new_pool-IsSound max_connections)).pool
