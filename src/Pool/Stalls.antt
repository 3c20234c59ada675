-- ===== src/Pool/Stalls.antt =====
-- rust/crates/h2ts-client/src/pool.rs: what a request that is dropped while it opens leaves behind.
use h2ts.Common.{
  ℕ, ◌≡◌, refl, sym, ◌∙◌, ◌≢◌, true, true-ne-false, not, ◌&&◌, if_case, List, Option, some, none,
}
use h2ts.Pool.Reach.{new_pool, opener-opening}
use h2ts.Pool.{
  Connections, PoolState, Pool, Step, Steps, retain_open, choose, issue_or_open, route, last,
  issue_or_route, after_open, routed,
}

-- An open is marked as under way, and no request owns it.
record IsStalled (woken : List ℕ) (p : Pool) : Type 0 where
  nobody : p.opener ≡ none
  marked : p.state.opening ≡ true
  asleep : p.state.woken ≡ woken

issue_or_open-IsStalled :
    (woken : List ℕ) (p : Pool) (st : PoolState) (ticket : ℕ) (o : Option ℕ)
    → p.opener ≡ none
    → st.opening ≡ true
    → st.woken ≡ woken
    → IsStalled woken (routed p ticket (issue_or_open st ticket o))
issue_or_open-IsStalled woken p st ticket (some c) n m a = record {
  nobody = n;
  marked = m;
  asleep = a;
}
issue_or_open-IsStalled woken p st ticket none n m a =
    if_case (λ r. IsStalled woken (routed p ticket r)) st.opening
      (λ t. record { nobody = n; marked = t; asleep = a }) (λ f. absurd (true-ne-false (sym m ∙ f)))

route-IsStalled :
    (woken : List ℕ) (status : Connections) (max_connections : ℕ) (p : Pool) (ticket : ℕ)
    → IsStalled woken p
    → IsStalled woken (routed p ticket (route status max_connections p.state ticket))
unfolding route
route-IsStalled woken status max_connections p ticket h =
    let conns = retain_open status p.state.conns in
    issue_or_open-IsStalled woken p (record p.state { conns = conns }) ticket
      (choose status max_connections conns) h.nobody h.marked h.asleep

issue_or_route-IsStalled :
    (woken : List ℕ) (status : Connections) (max_connections : ℕ) (p : Pool) (ticket : ℕ)
    (o : Option ℕ)
    → IsStalled woken p
    → IsStalled woken (routed p ticket (issue_or_route status max_connections p.state ticket o))
issue_or_route-IsStalled woken status max_connections p ticket none h =
    route-IsStalled woken status max_connections p ticket h
issue_or_route-IsStalled woken status max_connections p ticket (some c) h =
    if_case (λ r. IsStalled woken (routed p ticket r))
      (not (status c).is_closed && not (status c).can_open)
      (λ f. record { nobody = h.nobody; marked = h.marked; asleep = h.asleep })
      (λ f. route-IsStalled woken status max_connections p ticket h)

some-ne-none : (n : ℕ) → some n ≢ none
some-ne-none n e = cc

Step-IsStalled :
    (woken : List ℕ) (max_connections : ℕ) {p q : Pool}
    → Step max_connections p q
    → IsStalled woken p
    → IsStalled woken q
unfolding after_open
Step-IsStalled woken max_connections {p} (Step.requested status ticket) h =
    route-IsStalled woken status max_connections p ticket h
Step-IsStalled woken max_connections {p} (Step.resumed status ticket) h =
    issue_or_route-IsStalled woken status max_connections p ticket (last p.state.conns) h
Step-IsStalled woken max_connections (Step.landed ticket result) h =
    absurd (some-ne-none ticket h.nobody)
Step-IsStalled woken max_connections (Step.dropped ticket) h = absurd (some-ne-none ticket h.nobody)
Step-IsStalled woken max_connections {p} Step.closed h = record {
  nobody = h.nobody;
  marked = h.marked;
  asleep = h.asleep;
}

Steps-IsStalled :
    (woken : List ℕ) (max_connections : ℕ) {p q : Pool}
    → Steps max_connections p q
    → IsStalled woken p
    → IsStalled woken q
Steps-IsStalled woken max_connections Steps.here h = h
Steps-IsStalled woken max_connections (Steps.then_step s t) h =
    Step-IsStalled woken max_connections t (Steps-IsStalled woken max_connections s h)

-- A request that is dropped while it awaits the factory, in any state that a pool has reached, leaves
-- an open marked as under way that nobody owns: from then on, whatever comes, no request opens a
-- connection, and no request that waits for an open is woken.
pub dropped_stalls :
    (max_connections ticket : ℕ) (st : PoolState) (q : Pool)
    → Steps max_connections new_pool (record { state = st; opener = some ticket })
    → Steps max_connections (record { state = st; opener = none }) q
    → (q.opener ≡ none) × (q.state.opening ≡ true) × (q.state.woken ≡ st.woken)
dropped_stalls max_connections ticket st q before after =
    let h = Steps-IsStalled st.woken max_connections after record {
      nobody = refl;
      marked = opener-opening max_connections ticket st before;
      asleep = refl;
    } in
    (h.nobody, h.marked, h.asleep)
