-- ===== src/Connection/Invariant/Farewell.antt =====
-- rust/crates/h2ts-client/src/connection.rs: an error of the connection is told to the peer.
use h2ts.Common.{true-ne-false, ◌≡◌, refl, sym, ◌∙◌, true, false, if_case, [], ◌∷◌, ◌++◌, some}
use h2ts.Common.Dict.{keys}
use h2ts.Errors.{H2Error, value}
use h2ts.Frames.Types.{Frame}
use h2ts.Flow.{SendWindow}
use h2ts.Flow
use h2ts.Connection.State.{ConnState, Output, send_frame, write_raw, wake_slot_waiters}
use h2ts.Connection.Control.{destroy, connection_error}
use h2ts.Connection.Invariant.Drain.{fail_all-sent, fail_all-close_error}
use h2ts.Connection.Invariant.Teardown.{destroy-closed}
use h2ts.Connection.Invariant.{IsConn}

send_frame-closed : (st : ConnState) (f : Frame) → (send_frame st f).closed ≡ st.closed
unfolding send_frame write_raw
send_frame-closed st f = refl

send_frame-sent :
    (st : ConnState) (f : Frame)
    → st.closed ≡ false
    → st.out_tx ≡ true
    → (send_frame st f).sent ≡ st.sent ++ (Output.frame f ∷ [])
unfolding send_frame write_raw
send_frame-sent st f c o = rw (c, o)

-- The state behind a call, after what it has put on the channel.
abbrev Ends : ConnState → H2Error → ConnState → Type 0
Ends st e u = (u.sent ≡ st.sent) × (u.close_error ≡ some e)

destroy-Ends : (st : ConnState) (e : H2Error) → st.closed ≡ false → Ends st e (destroy st e)
unfolding destroy wake_slot_waiters
destroy-Ends st e o =
    let st1 = record st {
      closed = true;
      close_error = some e;
      conn_send_window = Flow.close st.conn_send_window;
    } in
    if_case (Ends st e) st.closed (λ c. absurd (true-ne-false (sym c ∙ o)))
      (λ _. (fail_all-sent st1 (keys st.streams) e, fail_all-close_error st1 (keys st.streams) e))

-- An error of an open connection is told to the peer, and to all that come later: one GOAWAY with
-- the error's code and the highest promised stream is the last that is sent, the connection is
-- closed, and the error is kept as the reason.
pub connection_error_tells :
    (st : ConnState) (e : H2Error)
    → IsConn st
    → st.closed ≡ false
    → ((connection_error st e).sent
        ≡ st.sent ++ (Output.frame (Frame.goaway st.highest_promised (value e.code) []) ∷ []))
      × ((connection_error st e).closed ≡ true)
      × ((connection_error st e).close_error ≡ some e)
unfolding connection_error
connection_error_tells st e h o =
    let bye = Frame.goaway st.highest_promised (value e.code) [] in
    let u = send_frame st bye in
    let (sent, reason) = destroy-Ends u e (send_frame-closed st bye ∙ o) in
    (sent ∙ send_frame-sent st bye o (h.sender o), destroy-closed u e, reason)
