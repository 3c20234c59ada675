-- ===== src/Connection/Drive.antt =====
-- rust/crates/h2ts-client/src/connection.rs: the driver, and the connection as it runs: each step is
-- a call of a handle, a round of a body pump, or what the driver does with the transport.
pub mod Reach
pub mod Slots
mod Runs
use h2ts.Common.{ℕ, Bool, true, false, if◌then◌else◌, List, [], ◌∷◌, Option, some, none, map}
use h2ts.Common.Int.{ℤ}
use h2ts.Common.Dict.{Dict, find, put}
use h2ts.Errors.{ErrorCode, Outcome, ok, text}
use h2ts.Errors
use h2ts.Frames.Types.{Frame}
use h2ts.Flow.{SendWindow}
use h2ts.Connection.Head.{RequestInit}
use h2ts.Connection.State.{ConnState, StreamState, send_frame}
use h2ts.Connection.Control.{destroy}
use h2ts.Connection.Blocks.{Done, done}
use h2ts.Connection.Dispatch.{is_empty, on_bytes}
use h2ts.Connection.Client.{request, finish_body, poll_body, drop_body, ping, close}
use h2ts.Connection.Pump.{Shared, Round, round}

-- The read loop: an empty chunk is skipped.
unfoldable pub receive_chunk : ℕ → ℤ → ConnState → List ℕ → Done
unfolding on_bytes
receive_chunk bits now st chunk = if is_empty chunk then done st else on_bytes bits now st chunk

-- Behind the read loop.
unfoldable pub end_of_input : ConnState → ConnState
unfolding destroy
end_of_input st = destroy st (Errors.new ErrorCode.no_error (text "transport closed by peer"))

-- The write loop, when the transport refuses bytes.
unfoldable pub write_failed : ConnState → ConnState
unfolding destroy
write_failed st = destroy st (Errors.new ErrorCode.internal_error (text "transport write failed"))

abbrev pub window_of : Option StreamState → Option SendWindow
window_of none = none
window_of (some s) = some s.send_window

-- What a pump sees of the connection, and what it leaves.
abbrev pub shared_of : ConnState → Option StreamState → Shared
shared_of st o = record {
  closed = st.closed;
  conn_send_window = st.conn_send_window;
  stream_window = window_of o;
  max_frame_size = st.remote.max_frame_size;
}

abbrev pub put_window : ConnState → ℕ → Option StreamState → Option SendWindow → ConnState
put_window st id (some s) (some w) = record st {
  streams = put id (record s { send_window = w }) st.streams;
}
put_window st id _ _ = st

abbrev pub send_round : ConnState → ℕ → Round → ConnState
send_round st id (Round.sent k bytes) = send_frame st (Frame.data_frame id bytes false)
send_round st id _ = st

abbrev pub pump_found : ConnState → ℕ → Option StreamState → List ℕ → ℕ → Round × ConnState
pump_found st id o rest task =
    let (r, sh) = round (shared_of st o) rest task in
    (
      r,
      send_round
          (put_window (record st { conn_send_window = sh.conn_send_window }) id o sh.stream_window)
          id r,
    )

-- A round of `pump_chunk` on the part of the chunk from `offset`.
unfoldable pub pump_round : ConnState → ℕ → List ℕ → ℕ → Round × ConnState
unfolding round send_frame
pump_round st id rest task = pump_found st id (find id st.streams) rest task

-- One step of the connection.
pub data Step (bits : ℕ) (to_uppercase : List ℕ → List ℕ) : ConnState → ConnState → Type 0 where
  received :
      {st : ConnState} (now : ℤ) (chunk : List ℕ)
      → Step bits to_uppercase st (receive_chunk bits now st chunk).1
  input_ended : {st : ConnState} → Step bits to_uppercase st (end_of_input st)
  output_failed : {st : ConnState} → Step bits to_uppercase st (write_failed st)
  requested :
      {st : ConnState} (init : RequestInit) (has_body : Bool) (ticket : ℕ)
      → Step bits to_uppercase st (request to_uppercase st init has_body ticket).1
  pumped :
      {st : ConnState} (id : ℕ) (rest : List ℕ) (task : ℕ)
      → Step bits to_uppercase st (pump_round st id rest task).1
  body_finished : {st : ConnState} (id : ℕ) → Step bits to_uppercase st (finish_body st id)
  body_polled : {st : ConnState} (id task : ℕ) → Step bits to_uppercase st (poll_body st id task).1
  body_dropped : {st : ConnState} (id : ℕ) → Step bits to_uppercase st (drop_body st id)
  pinged :
      {st : ConnState} (now : ℤ) (ticket : ℕ) → Step bits to_uppercase st (ping st now ticket).1
  closed_by_client : {st : ConnState} → Step bits to_uppercase st (close st)

pub data Steps (bits : ℕ) (to_uppercase : List ℕ → List ℕ) : ConnState → ConnState → Type 0 where
  here : {st : ConnState} → Steps bits to_uppercase st st
  then_step :
      {st u v : ConnState}
      → Steps bits to_uppercase st u
      → Step bits to_uppercase u v
      → Steps bits to_uppercase st v
