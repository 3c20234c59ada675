-- ===== src/Connection/Control.antt =====
-- rust/crates/h2ts-client/src/connection.rs: the end of streams and of the connection.
use h2ts.Common.{
  ℕ, ◌%◌, ◌^◌, true, false, ◌&&◌, ◌||◌, ◌==◌, if◌then◌else◌, List, [], ◌∷◌, ◌++◌, Option, some,
  none,
}
use h2ts.Common.Dict.{keys, find, has_key, remove}
use h2ts.Errors.{H2Error, ErrorCode, value, reset_locally}
use h2ts.Errors
use h2ts.Frames.Types.{Frame}
use h2ts.Flow
use h2ts.Connection.State.{
  ConnState, StreamState, HeadSlot, PingWaiter, PingAnswer, send_frame, set_cell, wake_slot_waiters,
}
use h2ts.Connection.Streams.{fail}

-- A stream that was found, taken out of the map and failed.
abbrev pub fail_found : ConnState → ℕ → H2Error → Option StreamState → ConnState
fail_found st id e none = st
fail_found st id e (some s) =
    set_cell (record st { streams = remove id st.streams }) id (fail s (st.cells id) e).1

-- `if let Some(mut s) = self.streams.remove(&id) { s.fail(err) }`
unfoldable pub remove_and_fail : ConnState → ℕ → H2Error → ConnState
unfolding fail
remove_and_fail st id e = fail_found st id e (find id st.streams)

unfoldable pub reset_stream : ConnState → ℕ → ErrorCode → ConnState
unfolding send_frame remove_and_fail wake_slot_waiters value
reset_stream st id code =
    let st1 = send_frame st (Frame.rst_stream id (value code)) in
    wake_slot_waiters (remove_and_fail st1 id (Errors.stream code (reset_locally id) id))

-- A stream that is dropped with its sender leaves its request without an answer.
abbrev pub dropped_head : StreamState → HeadSlot → HeadSlot
dropped_head s slot = if s.head_tx then HeadSlot.canceled else slot

abbrev pub drop_stream : ConnState → ℕ → StreamState → ConnState
drop_stream st id s =
    let c = st.cells id in
    set_cell (record st { streams = remove id st.streams }) id
      (record c { head = dropped_head s c.head })

abbrev pub retire_found : ConnState → ℕ → Option StreamState → ConnState
retire_found st id none = st
retire_found st id (some s) =
    if s.local_closed && s.remote_closed then wake_slot_waiters (drop_stream st id s) else st

unfoldable pub retire_if_fully_closed : ConnState → ℕ → ConnState
unfolding wake_slot_waiters
retire_if_fully_closed st id = retire_found st id (find id st.streams)

unfoldable pub replenish_recv_window : ConnState → ℕ → ℕ → ConnState
unfolding send_frame
replenish_recv_window st stream_id n =
    let inc = n % 2 ^ 32 in
    let st1 =
      if has_key stream_id st.streams
      then send_frame st (Frame.window_update stream_id inc)
      else st in
    if st.closed || n == 0 then st else send_frame st1 (Frame.window_update 0 inc)

-- The streams of a list of identifiers, each taken out and failed.
unfoldable pub fail_all : ConnState → List ℕ → H2Error → ConnState
unfolding remove_and_fail
fail_all st [] e = st
fail_all st (id ∷ ids) e = fail_all (remove_and_fail st id e) ids e

abbrev failed_pings : H2Error → List (List ℕ × PingWaiter) → List (ℕ × PingAnswer)
failed_pings e [] = []
failed_pings e ((k, w) ∷ r) = (w.ticket, PingAnswer.failed e) ∷ failed_pings e r

abbrev pub fail_pings : ConnState → H2Error → ConnState
fail_pings st e = record st {
  pings = [];
  ping_answers = st.ping_answers ++ failed_pings e st.pings;
}

unfoldable pub destroy : ConnState → H2Error → ConnState
unfolding fail_all wake_slot_waiters
destroy st e =
    let st1 = record st {
      closed = true;
      close_error = some e;
      conn_send_window = Flow.close st.conn_send_window;
    } in
    let st2 = fail_all st1 (keys st.streams) e in
    let st3 = wake_slot_waiters (fail_pings st2 e) in
    if st.closed then st else record st3 { out_tx = false }

unfoldable pub connection_error : ConnState → H2Error → ConnState
unfolding send_frame value
connection_error st e =
    destroy (send_frame st (Frame.goaway st.highest_promised (value e.code) [])) e
