-- ===== src/Connection/Credit/Runs.antt =====
-- rust/crates/h2ts-client/src/connection.rs: a body that is read in part and dropped.
use h2ts.Common.{◌+◌, ◌≡◌, refl, if◌then◌else◌, [], ◌∷◌, length, arith}
use mathlib.Core.List.{flatten}
use h2ts.Common.Int.{pos}
use h2ts.Common.Dict.{has_key}
use h2ts.Connection.State.{ConnState, set_cell, fresh_cell, new_stream}
use h2ts.Connection.Receive
use h2ts.Connection.Client.{drop_body, initial}
use h2ts.Connection.Credit.{credit}
use h2ts.Connection.Credit.Body.{polls, drop_body-polls}

-- Two chunks wait for the reader of stream 1.
abbrev two_wait : ConnState
two_wait =
    set_cell (record (initial 4096 16384) { streams = (1, new_stream (pos 0)) ∷ [] }) 1
      (record fresh_cell {
        recv = record Receive.empty { queue = (7 ∷ 8 ∷ []) ∷ (9 ∷ []) ∷ []; buffered = 3 };
      })

drop_body-polls_example :
    (let n = length (flatten (two_wait.cells 1).recv.queue) in
      let u = drop_body (polls two_wait 1 (5 ∷ [])) 1 in
      (credit 0 u.sent ≡ credit 0 two_wait.sent + n)
      × (credit 1 u.sent ≡ credit 1 two_wait.sent + (if has_key 1 two_wait.streams then n else 0)))
unfolding flatten
drop_body-polls_example =
    drop_body-polls two_wait 1 (5 ∷ []) (omega arith) refl refl refl (omega arith)
