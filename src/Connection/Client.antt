-- ===== src/Connection/Client.antt =====
-- rust/crates/h2ts-client/src/connection.rs: what the handles of the client do to the connection.
use h2ts.Common.{
  ℕ, ◌+◌, ◌*◌, ◌%◌, ◌^◌, Bool, true, false, not, if◌then◌else◌, List, [], ◌∷◌, ◌++◌, Option, some,
  none, bytes_eq, codes,
}
use h2ts.Common.Int.{ℤ, pos, ◌-ℤ◌, ltb_ℤ, pos_part}
use h2ts.Common.Dict.{find, put, update}
use h2ts.Errors.{H2Error, ErrorCode, Outcome, ok, err, panic, value, text}
use h2ts.Errors
use h2ts.Bytes.{u32_bytes}
use h2ts.Frames.Types.{Frame, Settings, no_settings, default_max_frame_size}
use h2ts.Frames.Decoder
use h2ts.Hpack.Decoder.{new as new_hpack_decoder}
use h2ts.Hpack.Encoder.{encode}
use h2ts.Flow
use h2ts.Connection.Head.{Head, RequestInit, build_request_headers}
use h2ts.Connection.SendHeaders.{send_headers}
use h2ts.Connection.Receive.{Poll, replenished}
use h2ts.Connection.Receive
use h2ts.Connection.Settings.{default_settings}
use h2ts.Connection.State.{
  ConnState, StreamState, HeadSlot, PingWaiter, PingAnswer, Output, new_stream, fresh_cell,
  unused_cell, write_raw, send_frame, set_cell, can_open_stream,
}
use h2ts.Connection.Control.{reset_stream, retire_if_fully_closed, replenish_recv_window, destroy}

pub data RequestBody : Type 0 where
  empty : RequestBody
  bytes : List ℕ → RequestBody
  stream : List (List ℕ) → RequestBody

abbrev pub is_empty : RequestBody → Bool
is_empty RequestBody.empty = true
is_empty (RequestBody.bytes []) = true
is_empty (RequestBody.bytes (b ∷ r)) = false
is_empty (RequestBody.stream chunks) = false

abbrev pub or_closed : Option H2Error → H2Error
or_closed (some e) = e
or_closed none = Errors.new ErrorCode.internal_error (text "connection closed")

-- What a round of `request`'s first loop comes to: an error, a wait for a slot, or a stream.
pub data Admission : Type 0 where
  refused : H2Error → Admission
  parked : Admission
  opened : ℕ → Admission

unfoldable pub send_all : ConnState → List Frame → ConnState
unfolding send_frame
send_all st [] = st
send_all st (f ∷ fs) = send_all (send_frame st f) fs

abbrev pub sent_frames : ConnState → ℕ → Outcome (List Frame) → Outcome Admission × ConnState
sent_frames st id (ok fs) = (ok (Admission.opened id), send_all st fs)
sent_frames st id (err e) = (err e, st)
sent_frames st id panic = (panic, st)

-- The stream is entered in the map, with the sender of its channel.
unfoldable pub reserve : ConnState → Bool → ConnState
reserve st has_body =
    let id = st.next_stream_id in
    let s = record (new_stream st.remote.initial_window_size) {
      head_tx = true;
      local_closed = not has_body;
    } in
    record st {
      next_stream_id = (id + 2) % 2 ^ 32;
      streams = put id s st.streams;
      cells = update st.cells id fresh_cell;
    }

-- `to_uppercase` is the library's, over all of Unicode.
unfoldable pub open_stream :
    (List ℕ → List ℕ) → ConnState → RequestInit → Bool → Outcome Admission × ConnState
unfolding reserve send_all
open_stream to_uppercase st init has_body =
    let id = st.next_stream_id in
    let block = encode (build_request_headers to_uppercase init) in
    sent_frames (reserve st has_body) id
      (send_headers st.remote.max_frame_size id block (not has_body))

-- Nothing runs between the test for a free slot and the reservation, so that the tests before the
-- reservation, which repeat the first two, cannot fail. `ticket` stands for the waiting request.
unfoldable pub request :
    (List ℕ → List ℕ) → ConnState → RequestInit → Bool → ℕ → Outcome Admission × ConnState
unfolding open_stream can_open_stream
request to_uppercase st init has_body ticket =
    if st.closed
    then (ok (Admission.refused (or_closed st.close_error)), st)
    else if st.goaway_received
    then (
      ok (
          Admission.refused
            (Errors.new ErrorCode.refused_stream (text "connection is going away"))),
      st,
    )
    else if can_open_stream st
    then open_stream to_uppercase st init has_body
    else (ok Admission.parked, record st { slot_waiters = st.slot_waiters ++ (ticket ∷ []) })

-- What an opened request is answered, once there is something.
abbrev pub answer : ConnState → HeadSlot → Option (Outcome Head)
answer st HeadSlot.waiting = none
answer st (HeadSlot.answered head) = some (ok head)
answer st (HeadSlot.failed e) = some (err e)
answer st HeadSlot.canceled = some (err (or_closed st.close_error))

-- The end of `pump_body`, behind the last chunk.
abbrev pub half_close : ConnState → ℕ → Option StreamState → ConnState
half_close st id none = st
half_close st id (some s) =
    let st1 = send_frame st (Frame.data_frame id [] true) in
    retire_if_fully_closed
      (record st1 { streams = put id (record s { local_closed = true }) st1.streams }) id

unfoldable pub finish_body : ConnState → ℕ → ConnState
unfolding send_frame retire_if_fully_closed
finish_body st id = half_close st id (find id st.streams)

-- `ResponseBody::poll_next`, with what it gives back.
unfoldable pub poll_body : ConnState → ℕ → ℕ → Poll × ConnState
unfolding replenish_recv_window
poll_body st id task =
    let c = st.cells id in
    let (p, r) = Receive.poll_next c.recv task in
    let st1 = set_cell st id (record c { recv = r }) in
    (p, replenish_recv_window st1 id (replenished p))

-- `Drop for ResponseBody`
unfoldable pub drop_body : ConnState → ℕ → ConnState
unfolding replenish_recv_window reset_stream
drop_body st id =
    let (remaining, still_open) = Receive.drop_body (st.cells id).recv in
    let st1 = replenish_recv_window st id remaining in
    if still_open then reset_stream st1 id ErrorCode.cancel else st1

abbrev pub insert_ping :
    List ℕ → PingWaiter → List (List ℕ × PingWaiter) → List (List ℕ × PingWaiter)
insert_ping k w [] = (k, w) ∷ []
insert_ping k w ((j, v) ∷ r) = if bytes_eq j k then (j, w) ∷ r else (j, v) ∷ insert_ping k w r

abbrev pub replaced : List ℕ → List (List ℕ × PingWaiter) → List (ℕ × PingAnswer)
replaced k [] = []
replaced k ((j, v) ∷ r) =
    if bytes_eq j k then (v.ticket, PingAnswer.failed (or_closed none)) ∷ [] else replaced k r

-- `H2Connection::ping`: an error at once, or none and a wait.
unfoldable pub ping : ConnState → ℤ → ℕ → Option H2Error × ConnState
unfolding send_frame
ping st now ticket =
    let counter = (st.ping_counter + 1) % 2 ^ 32 in
    let opaque = 0 ∷ 0 ∷ 0 ∷ 0 ∷ u32_bytes counter in
    let st1 = record st {
      ping_counter = counter;
      pings = insert_ping opaque (record { ticket = ticket; sent_at = now }) st.pings;
      ping_answers = st.ping_answers ++ replaced opaque st.pings;
    } in
    if st.closed
    then (some (or_closed st.close_error), st)
    else (none, send_frame st1 (Frame.ping false opaque))

-- `H2Connection::close`
unfoldable pub close : ConnState → ConnState
unfolding send_frame destroy
close st =
    let bye = Frame.goaway st.highest_promised 0 [] in
    let e = Errors.new ErrorCode.no_error (text "connection closed by client") in
    if st.closed then st else destroy (send_frame st bye) e

pub record ConnectOptions : Type 0 where
  pub header_table_size : Option ℕ
  pub enable_push : Option Bool
  pub initial_window_size : Option ℕ
  pub max_frame_size : Option ℕ
  pub connection_window_size : Option ℕ

abbrev pub or_default : ℕ → Option ℕ → ℕ
or_default d none = d
or_default d (some n) = n

abbrev or_true : Option Bool → Bool
or_true none = true
or_true (some b) = b

abbrev pub connection_preface : List ℕ
connection_preface =
    codes "PRI * HTTP/2.0" ++ (13 ∷ 10 ∷ 13 ∷ 10 ∷ (codes "SM" ++ (13 ∷ 10 ∷ 13 ∷ 10 ∷ [])))

-- The state before anything is written.
abbrev pub initial : ℕ → ℕ → ConnState
initial header_table_size max_frame_size = record {
  out_tx = true;
  sent = [];
  decoder = new_hpack_decoder header_table_size;
  frame_decoder = Decoder.new max_frame_size;
  streams = [];
  cells = λ id. unused_cell;
  next_stream_id = 1;
  conn_send_window = Flow.new (pos 65535);
  remote = default_settings;
  pending_header_block = none;
  pings = [];
  ping_answers = [];
  ping_counter = 0;
  slot_waiters = [];
  admitted = [];
  closed = false;
  close_error = none;
  goaway_received = false;
  highest_promised = 0;
}

abbrev our_settings : ConnectOptions → Settings
our_settings o = record no_settings {
  header_table_size = some (or_default 4096 o.header_table_size % 2 ^ 32);
  enable_push = some (or_true o.enable_push);
  initial_window_size = some (or_default (1024 * 1024) o.initial_window_size);
  max_frame_size = some (or_default default_max_frame_size o.max_frame_size % 2 ^ 32);
}

abbrev pub grow_window : ConnState → ℤ → ConnState
grow_window st grow =
    if ltb_ℤ (pos 0) grow then send_frame st (Frame.window_update 0 (pos_part grow)) else st

unfoldable pub connect : ConnectOptions → ConnState
unfolding write_raw send_frame
connect o =
    let table = or_default 4096 o.header_table_size in
    let frame = or_default default_max_frame_size o.max_frame_size in
    let window = or_default (64 * 1024 * 1024) o.connection_window_size in
    let st = write_raw (initial table frame) (Output.raw connection_preface) in
    grow_window (send_frame st (Frame.settings false (our_settings o))) (pos window -ℤ pos 65535)
