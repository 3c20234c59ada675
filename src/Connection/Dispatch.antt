-- ===== src/Connection/Dispatch.antt =====
-- rust/crates/h2ts-client/src/connection.rs: `dispatch`, what each frame of the peer does.
use h2ts.Common.{
  ℕ, ◌%◌, ◌^◌, Bool, true, false, ◌==◌, ltb, if◌then◌else◌, List, [], ◌∷◌, ◌++◌, Option, some, none,
  length, bytes_eq,
}
use h2ts.Common.Int.{ℤ, pos, ◌-ℤ◌}
use h2ts.Common.Dict.{Dict, keys, find, put, remove}
use h2ts.Errors.{H2Error, ErrorCode, Outcome, ok, err, panic, value, from_value, text}
use h2ts.Errors
use h2ts.Frames.Types.{Frame, Settings, no_settings}
use h2ts.Frames.Decoder.{push as push_chunk}
use h2ts.Flow.{SendWindow}
use h2ts.Flow
use h2ts.Connection.Receive
use h2ts.Connection.Settings.{Peer, apply_remote_settings}
use h2ts.Connection.State.{
  ConnState, StreamState, HeaderBlockKind, PendingHeaderBlock, PingWaiter, PingAnswer, send_frame,
  set_cell, wake_slot_waiters,
}
use h2ts.Connection.Streams.{receive_reset}
use h2ts.Connection.Blocks.{
  Done, done, protocol_error, put_stream, close_remote, retire_if, guard_and_complete,
  on_continuation, block_start,
}
use h2ts.Connection.Control.{
  reset_stream, retire_if_fully_closed, fail_all, destroy, connection_error,
}

-- The part of the state that `apply_remote_settings` changes, taken out and put back.
abbrev pub windows : Dict StreamState → List SendWindow
windows [] = []
windows ((id, s) ∷ d) = s.send_window ∷ windows d

abbrev pub put_windows : List SendWindow → Dict StreamState → Dict StreamState
put_windows (w ∷ ws) ((id, s) ∷ d) = (id, record s { send_window = w }) ∷ put_windows ws d
put_windows _ d = d

abbrev pub peer_of : ConnState → Peer
peer_of st = record {
  remote = st.remote;
  stream_windows = windows st.streams;
  slot_waiters = st.slot_waiters;
  admitted = st.admitted;
}

abbrev pub put_peer : ConnState → Peer → ConnState
put_peer st p = record st {
  remote = p.remote;
  streams = put_windows p.stream_windows st.streams;
  slot_waiters = p.slot_waiters;
  admitted = p.admitted;
}

abbrev pub acknowledge : ConnState → Outcome Peer → Done
acknowledge st (ok p) = done (send_frame (put_peer st p) (Frame.settings true no_settings))
acknowledge st (err e) = (err e, st)
acknowledge st panic = (panic, st)

unfoldable pub on_settings : ConnState → Bool → Settings → Done
unfolding send_frame
on_settings st ack settings =
    if ack then done st else acknowledge st (apply_remote_settings (peer_of st) settings)

abbrev pub is_empty : List ℕ → Bool
is_empty [] = true
is_empty (b ∷ r) = false

-- DATA on an unknown stream is discarded, and its bytes are given back at once.
abbrev pub data_found : ConnState → ℕ → List ℕ → Bool → Option StreamState → ConnState
data_found st id bytes end_stream (some s) =
    let c = st.cells id in
    put_stream st id (
      close_remote end_stream (s, record c { recv = Receive.receive_data c.recv bytes end_stream }))
data_found st id bytes end_stream none =
    if is_empty bytes then st else send_frame st (Frame.window_update 0 (length bytes % 2 ^ 32))

unfoldable pub on_data : ConnState → ℕ → List ℕ → Bool → ConnState
unfolding send_frame retire_if_fully_closed
on_data st id bytes end_stream =
    retire_if end_stream (data_found st id bytes end_stream (find id st.streams)) id

abbrev pub reset_found : ConnState → ℕ → ℕ → Option StreamState → ConnState
reset_found st id error_code none = st
reset_found st id error_code (some s) =
    set_cell (record st { streams = remove id st.streams }) id
      (receive_reset id s (st.cells id) error_code).1

unfoldable pub on_rst_stream : ConnState → ℕ → ℕ → ConnState
unfolding receive_reset
on_rst_stream st id error_code = reset_found st id error_code (find id st.streams)

abbrev pub grant_found : ConnState → ℕ → ℕ → Option StreamState → ConnState
grant_found st id increment none = st
grant_found st id increment (some s) = record st {
  streams =
      put id (record s { send_window = Flow.update s.send_window (pos increment) }) st.streams;
}

unfoldable pub on_window_update : ConnState → ℕ → ℕ → Done
unfolding reset_stream
on_window_update st id increment =
    if increment == 0
    then if id == 0
      then (err (protocol_error (text "zero WINDOW_UPDATE")), st)
      else done (reset_stream st id ErrorCode.protocol_error)
    else if id == 0
    then done (record st { conn_send_window = Flow.update st.conn_send_window (pos increment) })
    else done (grant_found st id increment (find id st.streams))

abbrev pub find_ping : List ℕ → List (List ℕ × PingWaiter) → Option PingWaiter
find_ping k [] = none
find_ping k ((j, w) ∷ r) = if bytes_eq j k then some w else find_ping k r

abbrev pub remove_ping : List ℕ → List (List ℕ × PingWaiter) → List (List ℕ × PingWaiter)
remove_ping k [] = []
remove_ping k ((j, w) ∷ r) = if bytes_eq j k then r else (j, w) ∷ remove_ping k r

abbrev pub answer_found : ConnState → ℤ → List ℕ → Option PingWaiter → ConnState
answer_found st now k none = st
answer_found st now k (some w) = record st {
  pings = remove_ping k st.pings;
  ping_answers = st.ping_answers ++ ((w.ticket, PingAnswer.rtt (now -ℤ w.sent_at)) ∷ []);
}

unfoldable pub on_ping : ConnState → ℤ → Bool → List ℕ → ConnState
unfolding send_frame
on_ping st now ack opaque_data =
    if ack
    then answer_found st now opaque_data (find_ping opaque_data st.pings)
    else send_frame st (Frame.ping true opaque_data)

abbrev pub above : ℕ → List ℕ → List ℕ
above last [] = []
above last (id ∷ r) = if ltb last id then id ∷ above last r else above last r

abbrev pub or_no_error : Option ErrorCode → ErrorCode
or_no_error (some code) = code
or_no_error none = ErrorCode.no_error

unfoldable pub on_goaway : ConnState → ℕ → ℕ → ConnState
unfolding fail_all wake_slot_waiters destroy
on_goaway st last_stream_id error_code =
    let e = Errors.new (or_no_error (from_value error_code)) (text "peer sent GOAWAY") in
    let st1 =
      fail_all (record st { goaway_received = true }) (above last_stream_id (keys st.streams)) e in
    let st2 = wake_slot_waiters st1 in if error_code == 0 then st2 else destroy st2 e

abbrev pub blocked : Option PendingHeaderBlock → Frame → Bool
blocked none f = false
blocked (some pb) (Frame.continuation id fragment end_headers) = false
blocked (some pb) _ = true

-- The frame's own arm. `bits` is the width of `usize`, and `now` the time in milliseconds.
unfoldable pub on_frame : ℕ → ℤ → ConnState → Frame → Done
on_frame bits now st (Frame.settings ack settings) = on_settings st ack settings
on_frame bits now st (Frame.headers id fragment end_stream end_headers priority) =
    guard_and_complete bits (block_start st HeaderBlockKind.response id end_stream none fragment)
      end_headers
on_frame bits now st (Frame.continuation id fragment end_headers) =
    on_continuation bits st st.pending_header_block id fragment end_headers
on_frame bits now st (Frame.push_promise id promised fragment end_headers) =
    guard_and_complete bits (block_start st HeaderBlockKind.push id false (some promised) fragment)
      end_headers
on_frame bits now st (Frame.data_frame id bytes end_stream) = done (on_data st id bytes end_stream)
on_frame bits now st (Frame.rst_stream id error_code) = done (on_rst_stream st id error_code)
on_frame bits now st (Frame.window_update id increment) = on_window_update st id increment
on_frame bits now st (Frame.ping ack opaque_data) = done (on_ping st now ack opaque_data)
on_frame bits now st (Frame.goaway last error_code debug_data) = done (on_goaway st last error_code)
on_frame bits now st (Frame.priority id p) = done st

unfoldable pub dispatch : ℕ → ℤ → ConnState → Frame → Done
unfolding on_frame
dispatch bits now st f =
    if blocked st.pending_header_block f
    then (err (protocol_error (text "expected CONTINUATION frame")), st)
    else on_frame bits now st f

abbrev pub and_next : (ConnState → Outcome (Unit {0}) × ConnState) → Done → Done
and_next k (ok u, st) = k st
and_next k (err e, st) = done (connection_error st e)
and_next k (panic, st) = (panic, st)

unfoldable pub dispatch_all : ℕ → ℤ → List Frame → ConnState → Done
dispatch_all bits now [] st = done st
dispatch_all bits now (f ∷ fs) st = and_next (dispatch_all bits now fs) (dispatch bits now st f)

abbrev pub framed : ℕ → ℤ → ConnState → Outcome (List Frame) → Done
framed bits now st (ok fs) = dispatch_all bits now fs st
framed bits now st (err e) = done (connection_error st e)
framed bits now st panic = (panic, st)

-- An error of the peer ends the connection; no error is left for the caller.
unfoldable pub on_bytes : ℕ → ℤ → ConnState → List ℕ → Done
unfolding dispatch_all connection_error
on_bytes bits now st chunk =
    let (fs, d) = push_chunk st.frame_decoder chunk in
    framed bits now (record st { frame_decoder = d }) fs
