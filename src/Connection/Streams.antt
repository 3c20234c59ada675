-- ===== src/Connection/Streams.antt =====
-- rust/crates/h2ts-client/src/connection.rs: the methods of `StreamState`, on the stream and its cell.
use h2ts.Common.{ℕ, Bool, true, false, ◌&&◌, leb, ltb, if◌then◌else◌, List, Option, some, none}
use h2ts.Errors.{H2Error, ErrorCode, from_value, reset_by_peer}
use h2ts.Errors
use h2ts.Hpack.Decoder.{Header}
use h2ts.Flow
use h2ts.Connection.Head.{Head, collect_headers}
use h2ts.Connection.Receive
use h2ts.Connection.State.{StreamState, Cell, HeadSlot}

-- `if let Some(tx) = self.head_tx.take() { let _ = tx.send(..); }`
abbrev pub send_head : StreamState → Cell → HeadSlot → StreamState × Cell
send_head s c answer =
    if s.head_tx then (record s { head_tx = false }, record c { head = answer }) else (s, c)

abbrev end_body_if : Bool → Cell → Cell
end_body_if end_stream c = if end_stream then record c { recv = Receive.end_body c.recv } else c

abbrev is_interim : Head → Bool
is_interim h = leb 100 h.status && ltb h.status 200

unfoldable pub receive_headers : StreamState → Cell → List Header → Bool → StreamState × Cell
receive_headers s c raw end_stream =
    let head = collect_headers raw in
    let (s1, c1) = send_head (record s { got_head = true }) c (HeadSlot.answered head) in
    if s.got_head
    then (s, end_body_if end_stream (record c { trailers = some head.headers }))
    else if is_interim head
    then (s, c)
    else (s1, end_body_if end_stream c1)

abbrev or_protocol_error : Option ErrorCode → ErrorCode
or_protocol_error (some code) = code
or_protocol_error none = ErrorCode.protocol_error

unfoldable pub fail : StreamState → Cell → H2Error → StreamState × Cell
fail s c e =
    let s1 = record s { send_window = Flow.close s.send_window } in
    let (s2, c2) =
      if s.got_head
      then (s1, c)
      else send_head (record s1 { got_head = true }) c (HeadSlot.failed e) in
    (s2, record c2 { recv = Receive.fail c2.recv e })

unfoldable pub receive_reset : ℕ → StreamState → Cell → ℕ → StreamState × Cell
unfolding fail
receive_reset id s c error_code =
    fail s c (Errors.stream (or_protocol_error (from_value error_code)) (reset_by_peer id) id)
