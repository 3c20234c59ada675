-- ===== src/Connection/State.antt =====
-- rust/crates/h2ts-client/src/connection.rs: the state of a connection and of its streams.
use h2ts.Common.{
  ℕ, ◌+◌, ◌^◌, ◌%◌, Bool, false, not, ◌&&◌, ◌==◌, ltb, if◌then◌else◌, List, [], ◌∷◌, ◌++◌, Option,
  none,
}
use h2ts.Common.Int.{ℤ}
use h2ts.Common.Dict.{Dict, keys, update}
use h2ts.Errors.{H2Error}
use h2ts.Frames.Types.{Frame}
use h2ts.Frames.Decoder.{FrameDecoder}
use h2ts.Hpack.Decoder.{HpackDecoder}
use h2ts.Flow.{SendWindow}
use h2ts.Flow
use h2ts.Connection.Head.{Fields, Head}
use h2ts.Connection.Receive.{RecvState}
use h2ts.Connection.Receive
use h2ts.Connection.Settings.{RemoteSettings}

-- The channel on which a request waits for the head of its response: nothing yet, an answer, or a
-- sender that was dropped.
pub data HeadSlot : Type 0 where
  waiting : HeadSlot
  answered : Head → HeadSlot
  failed : H2Error → HeadSlot
  canceled : HeadSlot

-- What a stream shares with the handles of its caller: the buffer, the trailers and the channel.
pub record Cell : Type 0 where
  pub recv : RecvState
  pub trailers : Option Fields
  pub head : HeadSlot

abbrev pub fresh_cell : Cell
fresh_cell = record { recv = Receive.empty; trailers = none; head = HeadSlot.waiting }

-- `head_tx` says whether the stream still holds the sender of its channel.
pub record StreamState : Type 0 where
  pub send_window : SendWindow
  pub head_tx : Bool
  pub got_head : Bool
  pub local_closed : Bool
  pub remote_closed : Bool

-- `StreamState::new`
abbrev pub new_stream : ℤ → StreamState
new_stream initial_send_window = record {
  send_window = Flow.new initial_send_window;
  head_tx = false;
  got_head = false;
  local_closed = false;
  remote_closed = false;
}

pub data HeaderBlockKind : Type 0 where
  response push : HeaderBlockKind

pub record PendingHeaderBlock : Type 0 where
  pub stream_id : ℕ
  pub kind : HeaderBlockKind
  pub end_stream : Bool
  pub promised_stream_id : Option ℕ
  pub fragments : List (List ℕ)
  pub size : ℕ

-- The caller of `ping` is known by a ticket; times are whole milliseconds.
pub record PingWaiter : Type 0 where
  pub ticket : ℕ
  pub sent_at : ℤ

pub data PingAnswer : Type 0 where
  rtt : ℤ → PingAnswer
  failed : H2Error → PingAnswer

-- What `write_raw` is called with: bytes, or the frame that `send_frame` serializes.
pub data Output : Type 0 where
  raw : List ℕ → Output
  frame : Frame → Output

-- `sent` is what was put on the outbound channel, `cells` the shared cells by stream, `admitted` the
-- parked requests that were woken, `ping_answers` what the callers of `ping` were told, and
-- `out_tx` says whether the outbound sender is still held.
pub record ConnState : Type 0 where
  pub out_tx : Bool
  pub sent : List Output
  pub decoder : HpackDecoder
  pub frame_decoder : FrameDecoder
  pub streams : Dict StreamState
  pub cells : ℕ → Cell
  pub next_stream_id : ℕ
  pub conn_send_window : SendWindow
  pub remote : RemoteSettings
  pub pending_header_block : Option PendingHeaderBlock
  pub pings : List (List ℕ × PingWaiter)
  pub ping_answers : List (ℕ × PingAnswer)
  pub ping_counter : ℕ
  pub slot_waiters : List ℕ
  pub admitted : List ℕ
  pub closed : Bool
  pub close_error : Option H2Error
  pub goaway_received : Bool
  pub highest_promised : ℕ

abbrev pub max_header_block_size : ℕ
max_header_block_size = 2 ^ 20

unfoldable pub write_raw : ConnState → Output → ConnState
write_raw st o = record st {
  sent = if not st.closed && st.out_tx then st.sent ++ (o ∷ []) else st.sent;
}

unfoldable pub send_frame : ConnState → Frame → ConnState
unfolding write_raw
send_frame st f = write_raw st (Output.frame f)

-- No request waits on a stream that was never opened.
abbrev pub unused_cell : Cell
unused_cell = record { recv = Receive.empty; trailers = none; head = HeadSlot.canceled }

abbrev pub set_cell : ConnState → ℕ → Cell → ConnState
set_cell st id c = record st { cells = update st.cells id c }

-- Client streams have odd numbers.
abbrev pub odd_keys : List ℕ → ℕ
odd_keys [] = 0
odd_keys (k ∷ r) = (if k % 2 == 1 then 1 else 0) + odd_keys r

abbrev pub active_streams : ConnState → ℕ
active_streams st = odd_keys (keys st.streams)

unfoldable pub can_open_stream : ConnState → Bool
can_open_stream st = ltb (active_streams st) st.remote.max_concurrent_streams

unfoldable pub wake_slot_waiters : ConnState → ConnState
wake_slot_waiters st = record st { slot_waiters = []; admitted = st.admitted ++ st.slot_waiters }
