-- ===== src/Pool.antt =====
-- rust/crates/h2ts-client/src/pool.rs: the pool, which routes requests over several connections.
pub mod Reach
pub mod Routing
pub mod Stalls
mod Runs
use h2ts.Common.{
  ℕ, Bool, true, false, not, ◌&&◌, ◌||◌, leb, if◌then◌else◌, List, [], ◌∷◌, ◌++◌, Option, some,
  none, length,
}
use h2ts.Errors.{H2Error, Outcome, ok, err, panic}
use h2ts.Connection.State.{ConnState, can_open_stream}

-- What a pool asks of a connection.
pub record PoolConnection : Type 0 where
  pub is_closed : Bool
  pub can_open : Bool

-- `impl PoolConnection for H2Connection`
abbrev pub pool_connection : ConnState → PoolConnection
pool_connection st = record { is_closed = st.closed; can_open = can_open_stream st }

-- The connections at one moment, by their handles.
abbrev pub Connections : Type 0
Connections = ℕ → PoolConnection

-- A handle is a number, and so is a waiting request. `woken` holds the requests that were told that
-- an open has ended.
pub record PoolState : Type 0 where
  pub conns : List ℕ
  pub opening : Bool
  pub open_waiters : List ℕ
  pub woken : List ℕ

-- Where a request goes: it is issued on a connection, it waits for the open of another request, or
-- it opens a connection itself.
pub data Route : Type 0 where
  issued : ℕ → Route
  waiting : Route
  opens : Route

abbrev pub retain_open : Connections → List ℕ → List ℕ
retain_open status [] = []
retain_open status (c ∷ r) =
    let rest = retain_open status r in if (status c).is_closed then rest else c ∷ rest

abbrev pub find_free : Connections → List ℕ → Option ℕ
find_free status [] = none
find_free status (c ∷ r) = if (status c).can_open then some c else find_free status r

-- At the cap, the first connection of the pool.
abbrev pub first_at_cap : ℕ → List ℕ → Option ℕ
first_at_cap max_connections [] = none
first_at_cap max_connections (c ∷ r) = if leb max_connections (length (c ∷ r)) then some c else none

abbrev pub or_else : Option ℕ → Option ℕ → Option ℕ
or_else (some c) o = some c
or_else none o = o

abbrev pub choose : Connections → ℕ → List ℕ → Option ℕ
choose status max_connections conns =
    or_else (find_free status conns) (first_at_cap max_connections conns)

-- The front of `open_one`, up to its await.
abbrev pub start_open : PoolState → ℕ → Route × PoolState
start_open st ticket =
    if st.opening
    then (Route.waiting, record st { open_waiters = st.open_waiters ++ (ticket ∷ []) })
    else (Route.opens, record st { opening = true })

abbrev pub issue_or_open : PoolState → ℕ → Option ℕ → Route × PoolState
issue_or_open st ticket (some c) = (Route.issued c, st)
issue_or_open st ticket none = start_open st ticket

-- A round of the loop of `request`, up to its next await.
unfoldable pub route : Connections → ℕ → PoolState → ℕ → Route × PoolState
route status max_connections st ticket =
    let conns = retain_open status st.conns in
    issue_or_open (record st { conns = conns }) ticket (choose status max_connections conns)

abbrev pub last : List ℕ → Option ℕ
last [] = none
last (c ∷ []) = some c
last (c ∷ d ∷ r) = last (d ∷ r)

abbrev is_full : PoolConnection → Bool
is_full c = not c.is_closed && not c.can_open

abbrev pub issue_or_route : Connections → ℕ → PoolState → ℕ → Option ℕ → Route × PoolState
issue_or_route status max_connections st ticket none = route status max_connections st ticket
issue_or_route status max_connections st ticket (some c) =
    let again = route status max_connections st ticket in
    if is_full (status c) then (Route.issued c, st) else again

-- Behind `open_one`: a fresh connection that is full already is parked on.
unfoldable pub after_open : Connections → ℕ → PoolState → ℕ → Route × PoolState
unfolding route
after_open status max_connections st ticket =
    issue_or_route status max_connections st ticket (last st.conns)

-- `open_one`, behind its await, with what the factory answered.
unfoldable pub land : PoolState → Outcome ℕ → PoolState
land st (ok c) = record st {
  opening = false;
  open_waiters = [];
  woken = st.woken ++ st.open_waiters;
  conns = st.conns ++ (c ∷ []);
}
land st _ = record st { opening = false; open_waiters = []; woken = st.woken ++ st.open_waiters }

-- `H2Pool::close`, without the calls on the connections.
abbrev pub close_all : PoolState → PoolState
close_all st = record st { conns = [] }

abbrev pub empty_pool : PoolState
empty_pool = record { conns = []; opening = false; open_waiters = []; woken = [] }

-- The pool, with the request that awaits the factory.
pub record Pool : Type 0 where
  pub state : PoolState
  pub opener : Option ℕ

abbrev pub opener_after : Pool → ℕ → Route → Option ℕ
opener_after p ticket Route.opens = some ticket
opener_after p ticket _ = p.opener

abbrev pub routed : Pool → ℕ → Route × PoolState → Pool
routed p ticket (r, st) = record { state = st; opener = opener_after p ticket r }

-- One step: between two of them the connections may change in any way. A request that awaits the
-- factory may be dropped by its caller.
pub data Step (max_connections : ℕ) : Pool → Pool → Type 0 where
  requested :
      {p : Pool} (status : Connections) (ticket : ℕ)
      → Step max_connections p (routed p ticket (route status max_connections p.state ticket))
  resumed :
      {p : Pool} (status : Connections) (ticket : ℕ)
      → Step max_connections p (routed p ticket (after_open status max_connections p.state ticket))
  landed :
      {st : PoolState} (ticket : ℕ) (result : Outcome ℕ)
      → Step max_connections
          record { state = st; opener = some ticket }
          record { state = land st result; opener = none }
  dropped :
      {st : PoolState} (ticket : ℕ)
      → Step max_connections
          record { state = st; opener = some ticket }
          record { state = st; opener = none }
  closed : {p : Pool} → Step max_connections p (record p { state = close_all p.state })

pub data Steps (max_connections : ℕ) : Pool → Pool → Type 0 where
  here : {p : Pool} → Steps max_connections p p
  then_step :
      {p q r : Pool}
      → Steps max_connections p q
      → Step max_connections q r
      → Steps max_connections p r
