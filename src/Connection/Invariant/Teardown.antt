-- ===== src/Connection/Invariant/Teardown.antt =====
-- rust/crates/h2ts-client/src/connection.rs: the end of the connection keeps the invariant, and
-- leaves nothing behind.
use h2ts.Common.{
  true-ne-false, ℕ, ◌≡◌, refl, sym, ap, ◌∙◌, true, false, ◌||◌, ◌==◌, if_case, ◌%◌, ◌^◌,
  if◌then◌else◌, [], ◌++◌, append-nil, Option, some, none, subst,
}
use h2ts.Common.Dict.{keys, has_key}
use h2ts.Errors.{H2Error, value}
use h2ts.Frames.Types.{Frame}
use h2ts.Flow.{SendWindow}
use h2ts.Flow
use h2ts.Connection.State.{ConnState, PendingHeaderBlock, send_frame, write_raw, wake_slot_waiters}
use h2ts.Connection.Control.{fail_all, fail_pings, replenish_recv_window, destroy, connection_error}
use h2ts.Connection.Live.{IsOpen}
use h2ts.Connection.Invariant.Drain.{
  fail_all_commutes, fail_all-keys, fail_all-closed, fail_all-parked,
}
use h2ts.Connection.Invariant.Endings.{fail_all-IsConn}
use h2ts.Connection.Invariant.{IsTorn, IsConn, IsConnUnbounded, send_frame-IsConn, same-IsPeer}

-- What the teardown does, once no stream is left.
abbrev tear : ConnState → H2Error → SendWindow → Option PendingHeaderBlock → ConnState
tear u e w p =
    record (wake_slot_waiters (
      fail_pings
        (record u {
          closed = true;
          close_error = some e;
          conn_send_window = w;
          pending_header_block = p;
        })
        e)) { out_tx = false }

tear-IsConn :
    (u : ConnState) (e : H2Error) (w : SendWindow) (p : Option PendingHeaderBlock)
    → IsConn u
    → u.streams ≡ []
    → IsConn (tear u e w p) × IsTorn (tear u e w p)
unfolding wake_slot_waiters
tear-IsConn u e w p h n =
    let torn : IsTorn (tear u e w p) = record {
      no_streams = n;
      no_sender = refl;
      no_pings = refl;
      no_waiters = refl;
    } in
    (
      record {
        table = h.table;
        peer = same-IsPeer u (tear u e w p) refl h.peer;
        block = λ c. absurd (true-ne-false c);
        live = h.live;
        sender = λ c. absurd (true-ne-false c);
        each = h.each;
        torn = λ c. torn;
      },
      torn,
    )

abbrev torn_of : ConnState → H2Error → ConnState
torn_of st e =
    let st1 = record st {
      closed = true;
      close_error = some e;
      conn_send_window = Flow.close st.conn_send_window;
    } in
    record (wake_slot_waiters (fail_pings (fail_all st1 (keys st.streams) e) e)) { out_tx = false }

-- The streams are failed first, as if the connection were still open, and no block pending.
torn_of-tear :
    (st : ConnState) (e : H2Error)
    → torn_of st e
      ≡ tear
          (fail_all (record st { pending_header_block = none }) (keys st.streams) e)
          e
          (Flow.close st.conn_send_window)
          st.pending_header_block
torn_of-tear st e =
    ap (λ u. record (wake_slot_waiters (fail_pings u e)) { out_tx = false })
      (fail_all_commutes (record st { pending_header_block = none }) true (some e)
        (Flow.close st.conn_send_window) st.pending_header_block (keys st.streams) e)

torn_of-IsConn :
    (st : ConnState) (e : H2Error)
    → IsConnUnbounded st
    → IsConn (torn_of st e) × IsTorn (torn_of st e)
torn_of-IsConn st e h =
    let u = record st { pending_header_block = none } in
    subst (λ v. IsConn v × IsTorn v) (sym (torn_of-tear st e))
      (tear-IsConn (fail_all u (keys st.streams) e) e (Flow.close st.conn_send_window)
        st.pending_header_block (fail_all-IsConn IsOpen u (keys st.streams) e h)
        (fail_all-keys u e))

IsTorn-none : (st : ConnState) → IsTorn st → IsTorn (record st { pending_header_block = none })
IsTorn-none st t = record {
  no_streams = t.no_streams;
  no_sender = t.no_sender;
  no_pings = t.no_pings;
  no_waiters = t.no_waiters;
}

IsTorn-any : (st : ConnState) → IsTorn (record st { pending_header_block = none }) → IsTorn st
IsTorn-any st t = record {
  no_streams = t.no_streams;
  no_sender = t.no_sender;
  no_pings = t.no_pings;
  no_waiters = t.no_waiters;
}

-- A closed connection may keep a block of any size.
closed-IsConn : (st : ConnState) → IsConnUnbounded st → st.closed ≡ true → IsConn st
closed-IsConn st h c = record {
  table = h.table;
  peer = same-IsPeer (record st { pending_header_block = none }) st refl h.peer;
  block = λ o. absurd (true-ne-false (sym c ∙ o));
  live = h.live;
  sender = h.sender;
  each = h.each;
  torn = λ d. IsTorn-any st (h.torn d);
}

-- The size of a pending block does not matter to the teardown.
pub destroy-IsConn : (st : ConnState) (e : H2Error) → IsConnUnbounded st → IsConn (destroy st e)
unfolding destroy
destroy-IsConn st e h =
    if_case IsConn st.closed (λ c. closed-IsConn st h c) (λ o. (torn_of-IsConn st e h).0)

-- The teardown leaves nothing behind, and closes the connection.
pub destroy-IsTorn : (st : ConnState) (e : H2Error) → IsConnUnbounded st → IsTorn (destroy st e)
unfolding destroy
destroy-IsTorn st e h =
    if_case IsTorn st.closed (λ c. IsTorn-any st (h.torn c)) (λ o. (torn_of-IsConn st e h).1)

pub destroy-closed : (st : ConnState) (e : H2Error) → (destroy st e).closed ≡ true
unfolding destroy wake_slot_waiters
destroy-closed st e =
    if_case (λ (u : ConnState). u.closed ≡ true) st.closed (λ c. c)
      (λ o.
        fail_all-closed
          (record st {
            closed = true;
            close_error = some e;
            conn_send_window = Flow.close st.conn_send_window;
          })
          (keys st.streams) e)

-- The requests that were parked are woken, behind those that were woken before.
pub destroy-woken :
    (st : ConnState) (e : H2Error)
    → IsConnUnbounded st
    → (destroy st e).admitted ≡ st.admitted ++ st.slot_waiters
unfolding destroy wake_slot_waiters
destroy-woken st e h =
    if_case (λ (u : ConnState). u.admitted ≡ st.admitted ++ st.slot_waiters) st.closed
      (λ c. sym (ap (st.admitted ++◌) (h.torn c).no_waiters ∙ append-nil st.admitted))
      (λ o.
        fail_all-parked
          (record st {
            closed = true;
            close_error = some e;
            conn_send_window = Flow.close st.conn_send_window;
          })
          (keys st.streams) e)

pub connection_error-IsConn :
    (st : ConnState) (e : H2Error) → IsConnUnbounded st → IsConn (connection_error st e)
unfolding connection_error send_frame write_raw
connection_error-IsConn st e h =
    let bye = Frame.goaway st.highest_promised (value e.code) [] in
    destroy-IsConn (send_frame st bye) e
      (send_frame-IsConn IsOpen (record st { pending_header_block = none }) h bye)

-- A block that is within its bound is one of any size.
pub unbounded : (st : ConnState) → IsConn st → IsConnUnbounded st
unbounded st h = record {
  table = h.table;
  peer = same-IsPeer st (record st { pending_header_block = none }) refl h.peer;
  block = λ c. tt;
  live = h.live;
  sender = h.sender;
  each = h.each;
  torn = λ d. IsTorn-none st (h.torn d);
}

pub replenish-IsConn :
    (st : ConnState) (id n : ℕ) → IsConn st → IsConn (replenish_recv_window st id n)
unfolding replenish_recv_window
replenish-IsConn st id n h =
    let inc = n % 2 ^ 32 in
    let st1 = if has_key id st.streams then send_frame st (Frame.window_update id inc) else st in
    if_case IsConn (st.closed || n == 0) (λ c. h)
      (λ o.
        send_frame-IsConn IsOpen st1
          (if_case IsConn (has_key id st.streams)
            (λ k. send_frame-IsConn IsOpen st h (Frame.window_update id inc)) (λ k. h))
          (Frame.window_update 0 inc))
