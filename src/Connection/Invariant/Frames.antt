-- ===== src/Connection/Invariant/Frames.antt =====
-- rust/crates/h2ts-client/src/connection.rs: each frame of the peer keeps the invariant.
use h2ts.Common.{
  true-ne-false, ℕ, ◌%◌, ◌^◌, ◌≡◌, refl, sym, ap, ◌∙◌, Bool, true, false, ◌==◌, if_case, List, [],
  ◌∷◌, Option, some, none, arith, length,
}
use h2ts.Common.Int.{ℤ, pos}
use h2ts.Common.Dict.{Dict, keys, find, put, Each, Each-find, Each-put}
use h2ts.Errors.{ErrorCode}
use h2ts.Frames.Types.{Frame}
use h2ts.Flow.{SendWindow}
use h2ts.Flow
use h2ts.Connection.Receive
use h2ts.Hpack.Decoder.{Header}
use h2ts.Connection.State.{ConnState, StreamState, Cell, HeadSlot, PingWaiter}
use h2ts.Connection.Streams.{receive_headers, receive_reset}
use h2ts.Connection.Blocks.{put_stream, close_remote, retire_if}
use h2ts.Connection.Dispatch.{
  data_found, on_data, reset_found, on_rst_stream, grant_found, on_window_update, answer_found,
  remove_ping, find_ping, on_ping, on_goaway, is_empty, above,
}
use h2ts.Connection.Live.{IsHeaded, IsOpen, found_waits, found-IsHeaded, replace-IsLive}
use h2ts.Connection.Invariant.{
  core-IsConn, IsConnFor, IsConn, IsConnBut, IsOpenBut, same-IsPeer, send_frame-IsConn,
  wake_slot_waiters-IsConn, put_stream-IsConn, found_open,
}
use h2ts.Connection.Invariant.Endings.{
  fail_found-IsConn, fail_all-IsConn, reset_stream-IsConn, retire-IsConn,
}
use h2ts.Connection.Invariant.Teardown.{destroy-IsConn, unbounded}
use h2ts.Connection.Invariant.Windows.{Keeps}

Each-but : (id : ℕ) (d : Dict StreamState) → Each IsOpen d → Each (IsOpenBut id) d
Each-but id [] h = tt
Each-but id ((j, s) ∷ d) h = ((λ n. h.0), Each-but id d h.1)

-- An exception for one stream is allowed.
pub but_one : (id : ℕ) (st : ConnState) → IsConn st → IsConnBut id st
but_one id st h = record {
  table = h.table;
  peer = h.peer;
  block = h.block;
  live = h.live;
  sender = h.sender;
  each = Each-but id st.streams h.each;
  torn = h.torn;
}

-- A stream that was found is written; at the end of its remote direction it is taken out if the
-- local one has ended too.
pub closing-IsConn :
    (st : ConnState) (id : ℕ) (s s' : StreamState) (c : Cell) (end_stream : Bool)
    → IsConn st
    → find id st.streams ≡ some s
    → IsHeaded id s'
    → (c.head ≡ HeadSlot.waiting → s'.head_tx ≡ true)
    → IsOpen id s'
    → IsConn (retire_if end_stream (put_stream st id (close_remote end_stream (s', c))) id)
closing-IsConn st id s s' c false h f hs hc o =
    put_stream-IsConn IsOpen st h IsOpen id s s' c f hs hc
      (Each-put IsOpen id s' st.streams o h.each)
closing-IsConn st id s s' c true h f hs hc o =
    let s1 = record s' { remote_closed = true } in
    retire-IsConn (put_stream st id (s1, c)) id (
      put_stream-IsConn IsOpen st h (IsOpenBut id) id s s1 c f hs hc (
        Each-put (IsOpenBut id) id s1 st.streams (λ n. absurd (n refl))
          (Each-but id st.streams h.each)))

pub retire_if-IsConn :
    (st : ConnState) (id : ℕ) (end_stream : Bool) → IsConn st → IsConn (retire_if end_stream st id)
retire_if-IsConn st id false h = h
retire_if-IsConn st id true h = retire-IsConn st id (but_one id st h)

data_found-IsConn :
    (st : ConnState) (id : ℕ) (bytes : List ℕ) (end_stream : Bool) (o : Option StreamState)
    → IsConn st
    → find id st.streams ≡ o
    → IsConn (retire_if end_stream (data_found st id bytes end_stream o) id)
data_found-IsConn st id bytes end_stream none h f =
    retire_if-IsConn (data_found st id bytes end_stream none) id end_stream (
      if_case IsConn (is_empty bytes) (λ e. h)
        (λ e. send_frame-IsConn IsOpen st h (Frame.window_update 0 (length bytes % 2 ^ 32))))
data_found-IsConn st id bytes end_stream (some s) h f =
    let c = st.cells id in
    closing-IsConn st id s s (record c { recv = Receive.receive_data c.recv bytes end_stream })
      end_stream h f (found-IsHeaded st.streams st.cells id s h.live f)
      (found_waits st.streams st.cells id s h.live f) (Each-find IsOpen id s st.streams h.each f)

pub on_data-IsConn :
    (st : ConnState) (id : ℕ) (bytes : List ℕ) (end_stream : Bool)
    → IsConn st
    → IsConn (on_data st id bytes end_stream)
unfolding on_data
on_data-IsConn st id bytes end_stream h =
    data_found-IsConn st id bytes end_stream (find id st.streams) h refl

pub same_ends :
    (s : StreamState) (c : Cell) (raw : List Header) (end_stream : Bool) (id : ℕ)
    → IsOpen id s
    → IsOpen id (receive_headers s c raw end_stream).0
unfolding receive_headers
same_ends s c raw end_stream id h = ground (arith, h)

reset_found-IsConn :
    (st : ConnState) (id code : ℕ) (o : Option StreamState)
    → IsConn st
    → find id st.streams ≡ o
    → IsConn (reset_found st id code o)
unfolding receive_reset
reset_found-IsConn st id code none h f = h
reset_found-IsConn st id code (some s) h f = fail_found-IsConn IsOpen st id _ (some s) h f

pub on_rst_stream-IsConn :
    (st : ConnState) (id code : ℕ) → IsConn st → IsConn (on_rst_stream st id code)
unfolding on_rst_stream
on_rst_stream-IsConn st id code h = reset_found-IsConn st id code (find id st.streams) h refl

-- The connection's own window is not restricted.
pub window-IsConn :
    (st : ConnState) (w : SendWindow) → IsConn st → IsConn (record st { conn_send_window = w })
window-IsConn st w h =
    core-IsConn IsOpen st (record st { conn_send_window = w }) h refl refl refl refl refl refl refl
      refl refl

-- A stream that was found is written, with the same sender, and no cell.
pub replace-IsConn :
    (Q : ℕ → StreamState → Type 0) (st : ConnState) (id : ℕ) (s s' : StreamState)
    → IsConn st
    → find id st.streams ≡ some s
    → s'.head_tx ≡ s.head_tx
    → IsHeaded id s'
    → Each Q (put id s' st.streams)
    → IsConnFor Q (record st { streams = put id s' st.streams })
replace-IsConn Q st id s s' h f e hs q = record {
  table = h.table;
  peer = same-IsPeer st (record st { streams = put id s' st.streams }) refl h.peer;
  block = h.block;
  live = replace-IsLive st.streams st.cells id s s' h.live f e hs;
  sender = h.sender;
  each = q;
  torn = λ t. absurd (true-ne-false (sym t ∙ found_open IsOpen st h id s f));
}

grant_found-IsConn :
    (st : ConnState) (id increment : ℕ) (o : Option StreamState)
    → IsConn st
    → find id st.streams ≡ o
    → IsConn (grant_found st id increment o)
grant_found-IsConn st id increment none h f = h
grant_found-IsConn st id increment (some s) h f =
    let s' = record s { send_window = Flow.update s.send_window (pos increment) } in
    replace-IsConn IsOpen st id s s' h f refl (found-IsHeaded st.streams st.cells id s h.live f)
      (Each-put IsOpen id s' st.streams (Each-find IsOpen id s st.streams h.each f) h.each)

pub on_window_update-Keeps :
    (st : ConnState) (id increment : ℕ) → IsConn st → Keeps (on_window_update st id increment)
unfolding on_window_update
on_window_update-Keeps st id increment h =
    if_case Keeps (increment == 0)
      (λ z.
        if_case Keeps (id == 0) (λ c. unbounded st h)
          (λ c. reset_stream-IsConn IsOpen st id ErrorCode.protocol_error h))
      (λ z.
        if_case Keeps (id == 0)
          (λ c. window-IsConn st (Flow.update st.conn_send_window (pos increment)) h)
          (λ c. grant_found-IsConn st id increment (find id st.streams) h refl))

answer_found-IsConn :
    (st : ConnState) (now : ℤ) (k : List ℕ) (o : Option PingWaiter)
    → IsConn st
    → IsConn (answer_found st now k o)
answer_found-IsConn st now k none h = h
answer_found-IsConn st now k (some w) h = record {
  table = h.table;
  peer = same-IsPeer st (answer_found st now k (some w)) refl h.peer;
  block = h.block;
  live = h.live;
  sender = h.sender;
  each = h.each;
  torn = λ c.
      let t = h.torn c in
      record {
        no_streams = t.no_streams;
        no_sender = t.no_sender;
        no_pings = ap (remove_ping k) t.no_pings;
        no_waiters = t.no_waiters;
      };
}

pub on_ping-IsConn :
    (st : ConnState) (now : ℤ) (ack : Bool) (k : List ℕ) → IsConn st → IsConn (on_ping st now ack k)
unfolding on_ping
on_ping-IsConn st now ack k h =
    if_case IsConn ack (λ a. answer_found-IsConn st now k (find_ping k st.pings) h)
      (λ a. send_frame-IsConn IsOpen st h (Frame.ping true k))

goaway_seen : (st : ConnState) → IsConn st → IsConn (record st { goaway_received = true })
goaway_seen st h =
    core-IsConn IsOpen st (record st { goaway_received = true }) h refl refl refl refl refl refl
      refl refl refl

pub on_goaway-IsConn :
    (st : ConnState) (last code : ℕ) → IsConn st → IsConn (on_goaway st last code)
unfolding on_goaway
on_goaway-IsConn st last code h =
    let woken = wake_slot_waiters-IsConn IsOpen _ (
      fail_all-IsConn IsOpen (record st { goaway_received = true }) (above last (keys st.streams)) _
        (goaway_seen st h)) in
    if_case IsConn (code == 0) (λ n. woken) (λ n. destroy-IsConn _ _ (unbounded _ woken))
