-- ===== src/Pool/Routing.antt =====
-- rust/crates/h2ts-client/src/pool.rs: where a request is routed.
use h2ts.Common.{ℕ, ◌+◌, ◌≤◌, ◌≡◌, ◌⊎◌, true, false, List, [], ◌∷◌, Option, some, none, length, All}
use h2ts.Pool.{Connections, PoolState, Route}

-- A handle stands in the list.
abbrev pub Among : ℕ → List ℕ → Type 0
Among c [] = ⊥
Among c (d ∷ r) = (d ≡ c) ⊎ Among c r

-- Every connection of the pool is open and full.
abbrev pub AllFull : Connections → List ℕ → Type 0
AllFull status conns = All (λ c. (status c).can_open ≡ false) conns

-- A pool that may open a connection: below its cap, or empty, as one with a cap of 0 may be.
abbrev pub HasRoom : ℕ → List ℕ → Type 0
HasRoom max_connections conns = (conns ≡ []) ⊎ (length conns + 1 ≤ max_connections)

-- Where a request goes, and why: to a connection of the pool that is open, and that has a free slot
-- or is the one to park on since all are full at the cap; else it waits for the open that is under
-- way, or opens a connection itself, and then all connections are full, and the pool is below the cap
-- or empty.
abbrev pub IsRouted : Connections → ℕ → PoolState → Route × PoolState → Type 0
IsRouted status max_connections st (Route.issued c, u) =
    Among c u.conns
    × ((status c).is_closed ≡ false)
    × (((status c).can_open ≡ true) ⊎ (AllFull status u.conns × (max_connections ≤ length u.conns)))
IsRouted status max_connections st (Route.waiting, u) =
    AllFull status u.conns
    × HasRoom max_connections u.conns
    × (st.opening ≡ true)
    × (u.opening ≡ true)
IsRouted status max_connections st (Route.opens, u) =
    AllFull status u.conns
    × HasRoom max_connections u.conns
    × (st.opening ≡ false)
    × (u.opening ≡ true)

-- What the search for a free slot comes to.
abbrev Finds : Connections → List ℕ → Option ℕ → Type 0
Finds status conns (some c) = Among c conns × ((status c).can_open ≡ true)
Finds status conns none = AllFull status conns

-- The first connection, if the cap is reached.
abbrev AtCap : ℕ → List ℕ → Option ℕ → Type 0
AtCap max_connections conns (some c) = Among c conns × (max_connections ≤ length conns)
AtCap max_connections conns none = HasRoom max_connections conns
