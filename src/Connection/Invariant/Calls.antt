-- ===== src/Connection/Invariant/Calls.antt =====
-- rust/crates/h2ts-client/src/connection.rs: the calls of the client's handles keep the invariant.
use h2ts.Common.{
  true-ne-false, ℕ, ◌≡◌, refl, sym, ◌∙◌, subst, Bool, true, false, not, ◌&&◌, if_case, List, [],
  ◌∷◌, Option, some, none, arith,
}
use h2ts.Common.Int.{ℤ, pos, ltb_ℤ, pos_part}
use h2ts.Common.Dict.{find, put, Each-put}
use h2ts.Errors.{H2Error, ErrorCode, Outcome, ok}
use h2ts.Frames.Types.{Frame, default_max_frame_size}
use h2ts.Hpack.Encoder.{encode}
use h2ts.Connection.Head.{RequestInit, build_request_headers}
use h2ts.Connection.SendHeaders.{send_headers-Carries}
use h2ts.Connection.Receive.{Poll, replenished}
use h2ts.Connection.Receive
use h2ts.Connection.State.{
  ConnState, StreamState, Output, PingWaiter, PingAnswer, write_raw, send_frame, set_cell,
  fresh_cell, new_stream, can_open_stream,
}
use h2ts.Connection.Client.{
  Admission, ConnectOptions, send_all, reserve, sent_frames, open_stream, request, half_close,
  finish_body, poll_body, drop_body, ping, close, initial, connect, or_default, grow_window,
  connection_preface,
}
use h2ts.Connection.Live.{canceled-ne-waiting, IsOpen, put-IsLive, found-IsHeaded}
use h2ts.Connection.Invariant.{
  IsConn, IsOpenBut, same-IsPeer, send_frame-IsConn, write_raw-IsConn, set_cell-IsConn,
}
use h2ts.Connection.Invariant.Endings.{reset_stream-IsConn, retire-IsConn}
use h2ts.Connection.Invariant.Teardown.{destroy-IsConn, replenish-IsConn, unbounded}
use h2ts.Connection.Invariant.Frames.{but_one, replace-IsConn}

send_all-IsConn : (st : ConnState) (fs : List Frame) → IsConn st → IsConn (send_all st fs)
unfolding send_all
send_all-IsConn st [] h = h
send_all-IsConn st (f ∷ fs) h =
    send_all-IsConn (send_frame st f) fs (send_frame-IsConn IsOpen st h f)

half_open : (b : Bool) → (b && false) ≡ false
half_open true = refl
half_open false = refl

reserve-IsConn :
    (st : ConnState) (has_body : Bool)
    → IsConn st
    → st.closed ≡ false
    → IsConn (reserve st has_body)
unfolding reserve
reserve-IsConn st has_body h o =
    let id = st.next_stream_id in
    let s = record (new_stream st.remote.initial_window_size) {
      head_tx = true;
      local_closed = not has_body;
    } in
    record {
      table = h.table;
      peer = same-IsPeer st (reserve st has_body) refl h.peer;
      block = h.block;
      live = put-IsLive st.streams st.cells id s fresh_cell h.live refl (λ w. refl);
      sender = h.sender;
      each = Each-put IsOpen id s st.streams (half_open (not has_body)) h.each;
      torn = λ c. absurd (true-ne-false (sym c ∙ o));
    }

-- A call that answers neither with a panic nor with an error that is not the request's own.
abbrev Admits : Outcome Admission × ConnState → Type 0
Admits (o, st) = ((a : Admission) × (o ≡ ok a)) × IsConn st

open_stream-Admits :
    (to_uppercase : List ℕ → List ℕ) (st : ConnState) (init : RequestInit) (has_body : Bool)
    → IsConn st
    → st.closed ≡ false
    → Admits (open_stream to_uppercase st init has_body)
unfolding open_stream
open_stream-Admits to_uppercase st init has_body h o =
    let id = st.next_stream_id in
    let block = encode (build_request_headers to_uppercase init) in
    let max = st.remote.max_frame_size in
    let (fs, e, c) =
      send_headers-Carries max id block (not has_body) (omega (arith, h.peer.frame_low)) in
    subst (λ m. Admits (sent_frames (reserve st has_body) id m)) (sym e)
      (
        (Admission.opened id, refl),
        send_all-IsConn (reserve st has_body) fs (reserve-IsConn st has_body h o),
      )

parked-IsConn :
    (st : ConnState) (ws : List ℕ)
    → IsConn st
    → st.closed ≡ false
    → IsConn (record st { slot_waiters = ws })
parked-IsConn st ws h o = record {
  table = h.table;
  peer = same-IsPeer st (record st { slot_waiters = ws }) refl h.peer;
  block = h.block;
  live = h.live;
  sender = h.sender;
  each = h.each;
  torn = λ c. absurd (true-ne-false (sym c ∙ o));
}

-- A request is refused, parked or opened: it does not panic, its loop over the header block ends,
-- and the connection's invariant is kept.
pub request-IsConn :
    (to_uppercase : List ℕ → List ℕ) (st : ConnState) (init : RequestInit) (has_body : Bool)
    (ticket : ℕ)
    → IsConn st
    → ((a : Admission) × ((request to_uppercase st init has_body ticket).0 ≡ ok a))
      × IsConn (request to_uppercase st init has_body ticket).1
unfolding request
request-IsConn to_uppercase st init has_body ticket h =
    if_case Admits st.closed (λ c. ((_, refl), h))
      λ o.
        if_case Admits st.goaway_received (λ g. ((_, refl), h))
          λ n.
            if_case Admits (can_open_stream st)
              (λ c. open_stream-Admits to_uppercase st init has_body h o)
              (λ c. ((Admission.parked, refl), parked-IsConn st _ h o))

half_close-IsConn :
    (st : ConnState) (id : ℕ) (o : Option StreamState)
    → IsConn st
    → find id st.streams ≡ o
    → IsConn (half_close st id o)
unfolding send_frame
half_close-IsConn st id none h f = h
half_close-IsConn st id (some s) h f =
    let st1 = send_frame st (Frame.data_frame id [] true) in
    let s' = record s { local_closed = true } in
    let h1 = send_frame-IsConn IsOpen st h (Frame.data_frame id [] true) in
    retire-IsConn (record st1 { streams = put id s' st1.streams }) id
      (replace-IsConn (IsOpenBut id) st1 id s s' h1 f refl
        (found-IsHeaded st.streams st.cells id s h.live f)
        (Each-put (IsOpenBut id) id s' st1.streams (λ n. absurd (n refl)) (but_one id st1 h1).each))

pub finish_body-IsConn : (st : ConnState) (id : ℕ) → IsConn st → IsConn (finish_body st id)
unfolding finish_body
finish_body-IsConn st id h = half_close-IsConn st id (find id st.streams) h refl

pub poll_body-IsConn : (st : ConnState) (id task : ℕ) → IsConn st → IsConn (poll_body st id task).1
unfolding poll_body
poll_body-IsConn st id task h =
    let c = st.cells id in
    let (p, r) = Receive.poll_next c.recv task in
    replenish-IsConn (set_cell st id (record c { recv = r })) id (replenished p)
      (set_cell-IsConn IsOpen st h id (record c { recv = r }) refl)

pub drop_body-IsConn : (st : ConnState) (id : ℕ) → IsConn st → IsConn (drop_body st id)
unfolding drop_body
drop_body-IsConn st id h =
    let (remaining, still_open) = Receive.drop_body (st.cells id).recv in
    let kept = replenish-IsConn st id remaining h in
    if_case IsConn still_open (λ o. reset_stream-IsConn IsOpen _ id ErrorCode.cancel kept)
      (λ o. kept)

asked-IsConn :
    (st : ConnState) (ps : List (List ℕ × PingWaiter)) (answers : List (ℕ × PingAnswer)) (n : ℕ)
    → IsConn st
    → st.closed ≡ false
    → IsConn (record st { pings = ps; ping_answers = answers; ping_counter = n })
asked-IsConn st ps answers n h o = record {
  table = h.table;
  peer =
      same-IsPeer st (record st { pings = ps; ping_answers = answers; ping_counter = n }) refl
        h.peer;
  block = h.block;
  live = h.live;
  sender = h.sender;
  each = h.each;
  torn = λ c. absurd (true-ne-false (sym c ∙ o));
}

pub ping-IsConn :
    (st : ConnState) (now : ℤ) (ticket : ℕ) → IsConn st → IsConn (ping st now ticket).1
unfolding ping
ping-IsConn st now ticket h =
    if_case (λ (r : Option H2Error × ConnState). IsConn r.1) st.closed (λ c. h)
      (λ o. send_frame-IsConn IsOpen _ (asked-IsConn st _ _ _ h o) _)

pub close-IsConn : (st : ConnState) → IsConn st → IsConn (close st)
unfolding close
close-IsConn st h =
    let bye = Frame.goaway st.highest_promised 0 [] in
    if_case IsConn st.closed (λ c. h)
      (λ o. destroy-IsConn (send_frame st bye) _ (unbounded _ (send_frame-IsConn IsOpen st h bye)))

initial-IsConn : (table frame : ℕ) → IsConn (initial table frame)
initial-IsConn table frame = record {
  table = record { counted = refl; within = omega arith; agreed = omega arith };
  peer = record {
    frame_low = omega arith;
    frame_high = omega arith;
    window_sign = refl;
    window_high = omega arith;
  };
  block = λ o. tt;
  live = record { distinct = tt; headed = tt; waits = λ id w. absurd (canceled-ne-waiting w) };
  sender = λ o. refl;
  each = tt;
  torn = λ c. absurd (true-ne-false (sym c));
}

grow_window-IsConn : (st : ConnState) (grow : ℤ) → IsConn st → IsConn (grow_window st grow)
grow_window-IsConn st grow h =
    if_case IsConn (ltb_ℤ (pos 0) grow)
      (λ g. send_frame-IsConn IsOpen st h (Frame.window_update 0 (pos_part grow))) (λ g. h)

-- A new connection has the invariant, whatever the options.
pub connect-IsConn : (o : ConnectOptions) → IsConn (connect o)
unfolding connect
connect-IsConn o =
    let table = or_default 4096 o.header_table_size in
    let frame = or_default default_max_frame_size o.max_frame_size in
    let first = Output.raw connection_preface in
    grow_window-IsConn _ _ (
      send_frame-IsConn IsOpen (write_raw (initial table frame) first)
        (write_raw-IsConn IsOpen (initial table frame) (initial-IsConn table frame) first) _)
