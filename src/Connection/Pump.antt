-- ===== src/Connection/Pump.antt =====
-- rust/crates/h2ts-client/src/connection.rs: `pump_chunk`, which sends one chunk of a request body
-- under the send windows of the connection and of the stream.
pub mod Bounds
pub mod Upload
pub mod Waits
mod Runs
use h2ts.Common.{
  ℕ, ◌+◌, Bool, true, false, ◌||◌, ◌&&◌, not, List, [], ◌∷◌, Option, some, none, length, take, drop,
  if◌then◌else◌,
}
use h2ts.Common.Int.{ℤ, pos, negsuc, pos_part, ltb_ℤ, min_ℤ}
use h2ts.Flow.{SendWindow, consume, is_ready, register_waker}

-- What the pump reads and writes of the connection's state; no window of the stream stands for a
-- stream that is no longer in the map.
pub record Shared : Type 0 where
  pub closed : Bool
  pub conn_send_window : SendWindow
  pub stream_window : Option SendWindow
  pub max_frame_size : ℕ

-- What one round of the loop does: wait for a waker, return `false`, go round again, or send a DATA
-- frame with these bytes and move the offset on by that much.
pub data Round : Type 0 where
  parked : Round
  stopped : Round
  again : Round
  sent : ℕ → List ℕ → Round

-- `remaining.min(conn_w).min(stream_w).min(max)`
abbrev pub grant : ℤ → ℤ → ℕ → ℕ → ℤ
grant conn_w stream_w max remaining =
    min_ℤ (min_ℤ (min_ℤ (pos remaining) conn_w) stream_w) (pos max)

abbrev pub park_if : Bool → ℕ → SendWindow → SendWindow
park_if ready task w = if ready then w else register_waker w task

abbrev pub consumed : Shared → SendWindow → ℤ → Shared
consumed s w n = record s {
  conn_send_window = consume s.conn_send_window n;
  stream_window = some (consume w n);
}

-- Behind the wait, with the stream's window and the part of the chunk from `offset`.
unfoldable pub send_next : Shared → SendWindow → List ℕ → Round × Shared
send_next s w rest =
    let n = grant s.conn_send_window.available w.available s.max_frame_size (length rest) in
    if w.closed
    then (Round.stopped, s)
    else if ltb_ℤ (pos 0) n
    then (Round.sent (pos_part n) (take (pos_part n) rest), consumed s w n)
    else (Round.again, s)

abbrev pub with_stream : Shared → SendWindow → List ℕ → ℕ → Round × Shared
with_stream s w rest task =
    let conn_ready = is_ready s.conn_send_window in
    let stream_ready = is_ready w in
    let waiting = record s {
      conn_send_window = park_if conn_ready task s.conn_send_window;
      stream_window = some (park_if stream_ready task w);
    } in
    if conn_ready && stream_ready then send_next s w rest else (Round.parked, waiting)

abbrev pub while_open : Shared → Option SendWindow → List ℕ → ℕ → Round × Shared
while_open s none rest task = (Round.stopped, s)
while_open s (some w) rest task = with_stream s w rest task

-- A round. Nothing else runs between a wait that is over and the sending.
unfoldable pub round : Shared → List ℕ → ℕ → Round × Shared
round s rest task = if s.closed then (Round.stopped, s) else while_open s s.stream_window rest task

-- What is left of the chunk: `offset += grant`.
abbrev pub behind : Round → List ℕ → List ℕ
behind (Round.sent k bytes) rest = drop k rest
behind _ rest = rest
