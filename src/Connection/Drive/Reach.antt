-- ===== src/Connection/Drive/Reach.antt =====
-- rust/crates/h2ts-client/src/connection.rs: what holds of every state that the connection reaches.
use h2ts.Common.{
  ℕ, ◌≡◌, ◌≢◌, refl, sym, ap, ◌∙◌, Bool, true, false, if_case, List, [], ◌++◌, Option, some, none,
}
use h2ts.Common.Int.{ℤ}
use h2ts.Common.Dict.{find, Each-find, Each-put}
use h2ts.Errors.{H2Error, Outcome, ok, err}
use h2ts.Flow.{SendWindow}
use h2ts.Frames.Types.{Frame}
use h2ts.Connection.Head.{Head, RequestInit}
use h2ts.Connection.Pump.{Round, round}
use h2ts.Connection.State.{ConnState, StreamState, HeadSlot}
use h2ts.Connection.Control.{destroy}
use h2ts.Connection.Dispatch.{is_empty}
use h2ts.Connection.Client.{Admission, ConnectOptions, connect, answer, or_closed, request}
use h2ts.Connection.Drive.{
  Step, Steps, receive_chunk, end_of_input, write_failed, put_window, send_round, pump_round,
  shared_of,
}
use h2ts.Connection.Live.{none-ne-some, IsOpen, found-IsHeaded}
use h2ts.Connection.Invariant.{IsConn, send_frame-IsConn}
use h2ts.Connection.Invariant.Teardown.{
  destroy-IsConn, destroy-IsTorn, destroy-closed, destroy-woken, unbounded,
}
use h2ts.Connection.Invariant.Frames.{window-IsConn, replace-IsConn}
use h2ts.Connection.Invariant.Driver.{KeepsAlways, on_bytes-IsConn}
use h2ts.Connection.Invariant.Calls.{
  request-IsConn, finish_body-IsConn, poll_body-IsConn, drop_body-IsConn, ping-IsConn, close-IsConn,
  connect-IsConn,
}

receive_chunk-IsConn :
    (bits : ℕ) (now : ℤ) (st : ConnState) (chunk : List ℕ)
    → IsConn st
    → KeepsAlways (receive_chunk bits now st chunk)
unfolding receive_chunk
receive_chunk-IsConn bits now st chunk h =
    if_case KeepsAlways (is_empty chunk) (λ e. (refl, h)) (λ e. on_bytes-IsConn bits now st chunk h)

put_window-IsConn :
    (st : ConnState) (id : ℕ) (o : Option StreamState) (w : Option SendWindow)
    → IsConn st
    → find id st.streams ≡ o
    → IsConn (put_window st id o w)
put_window-IsConn st id none w h f = h
put_window-IsConn st id (some s) none h f = h
put_window-IsConn st id (some s) (some w) h f =
    let s' = record s { send_window = w } in
    replace-IsConn IsOpen st id s s' h f refl (found-IsHeaded st.streams st.cells id s h.live f)
      (Each-put IsOpen id s' st.streams (Each-find IsOpen id s st.streams h.each f) h.each)

send_round-IsConn : (st : ConnState) (id : ℕ) (r : Round) → IsConn st → IsConn (send_round st id r)
send_round-IsConn st id (Round.sent k bytes) h =
    send_frame-IsConn IsOpen st h (Frame.data_frame id bytes false)
send_round-IsConn st id Round.parked h = h
send_round-IsConn st id Round.stopped h = h
send_round-IsConn st id Round.again h = h

pump_round-IsConn :
    (st : ConnState) (id : ℕ) (rest : List ℕ) (task : ℕ)
    → IsConn st
    → IsConn (pump_round st id rest task).1
unfolding pump_round
pump_round-IsConn st id rest task h =
    let o = find id st.streams in
    let (r, sh) = round (shared_of st o) rest task in
    send_round-IsConn _ id r (
      put_window-IsConn (record st { conn_send_window = sh.conn_send_window }) id o sh.stream_window
        (window-IsConn st sh.conn_send_window h) refl)

module _ (bits : ℕ) (to_uppercase : List ℕ → List ℕ) where
  Step-IsConn : {st u : ConnState} → Step bits to_uppercase st u → IsConn st → IsConn u
  unfolding end_of_input write_failed
  Step-IsConn {st} (Step.received now chunk) h = (receive_chunk-IsConn bits now st chunk h).1
  Step-IsConn {st} Step.input_ended h = destroy-IsConn st _ (unbounded st h)
  Step-IsConn {st} Step.output_failed h = destroy-IsConn st _ (unbounded st h)
  Step-IsConn {st} (Step.requested init has_body ticket) h =
      (request-IsConn to_uppercase st init has_body ticket h).1
  Step-IsConn {st} (Step.pumped id rest task) h = pump_round-IsConn st id rest task h
  Step-IsConn {st} (Step.body_finished id) h = finish_body-IsConn st id h
  Step-IsConn {st} (Step.body_polled id task) h = poll_body-IsConn st id task h
  Step-IsConn {st} (Step.body_dropped id) h = drop_body-IsConn st id h
  Step-IsConn {st} (Step.pinged now ticket) h = ping-IsConn st now ticket h
  Step-IsConn {st} Step.closed_by_client h = close-IsConn st h

  Steps_keep : {st u : ConnState} → Steps bits to_uppercase st u → IsConn st → IsConn u
  Steps_keep Steps.here h = h
  Steps_keep (Steps.then_step s t) h = Step-IsConn t (Steps_keep s h)

-- In whatever order the calls, the rounds of the pumps, the peer's bytes and the failures of the
-- transport come, a connection that was set up with any options keeps its invariant: the table of
-- the decoder is well formed, the peer's settings are within the limits, the pending header block
-- of an open connection is counted and at most 1 MiB, its outbound sender is held, the streams have distinct numbers, a request
-- that waits for its head has a stream that holds its sender, no stream stays of which both
-- directions have ended, and a closed connection has no stream, outbound sender, ping or parked
-- request left.
pub Steps-IsConn :
    (bits : ℕ) (to_uppercase : List ℕ → List ℕ) (o : ConnectOptions) (st : ConnState)
    → Steps bits to_uppercase (connect o) st
    → IsConn st
Steps-IsConn bits to_uppercase o st s = Steps_keep bits to_uppercase s (connect-IsConn o)

-- A channel on which nobody waits has something for the request.
answered_by :
    (st : ConnState) (slot : HeadSlot)
    → slot ≢ HeadSlot.waiting
    → (r : Outcome Head) × (answer st slot ≡ some r)
answered_by st HeadSlot.waiting h = absurd (h refl)
answered_by st (HeadSlot.answered head) h = (ok head, refl)
answered_by st (HeadSlot.failed e) h = (err e, refl)
answered_by st HeadSlot.canceled h = (_, refl)

no_stream :
    (st : ConnState) (id : ℕ) → IsConn st → st.streams ≡ [] → (st.cells id).head ≢ HeadSlot.waiting
no_stream st id h n w =
    let (s, f, t) = h.live.waits id w in none-ne-some s (ap (find id) (sym n) ∙ f)

-- A closed connection refuses a request, also one that was parked and is woken to ask again.
closed_refuses :
    (to_uppercase : List ℕ → List ℕ) (st : ConnState) (init : RequestInit) (has_body : Bool)
    (ticket : ℕ)
    → st.closed ≡ true
    → (r : H2Error) × ((request to_uppercase st init has_body ticket).0 ≡ ok (Admission.refused r))
unfolding request
closed_refuses to_uppercase st init has_body ticket c = (or_closed st.close_error, rw c refl)

-- When a connection is torn down, for whatever reason and in whatever state that it has reached, it
-- is closed. Each request with a stream has its head, or an error. No request stays parked for a free
-- stream: all that were are woken, in their order, and a request that asks again is refused with an
-- error. No ping waits any more.
pub destroy_answers :
    (bits : ℕ) (to_uppercase : List ℕ → List ℕ) (o : ConnectOptions) (st : ConnState) (e : H2Error)
    → Steps bits to_uppercase (connect o) st
    → ((destroy st e).closed ≡ true)
      × ((id : ℕ)
          → (r : Outcome Head) × (answer (destroy st e) ((destroy st e).cells id).head ≡ some r))
      × ((destroy st e).slot_waiters ≡ [])
      × ((destroy st e).admitted ≡ st.admitted ++ st.slot_waiters)
      × ((init : RequestInit) (has_body : Bool) (ticket : ℕ)
          → (r : H2Error) × ((request to_uppercase (destroy st e) init has_body ticket).0
              ≡ ok (Admission.refused r)))
      × ((destroy st e).pings ≡ [])
destroy_answers bits to_uppercase o st e s =
    let h = unbounded st (Steps-IsConn bits to_uppercase o st s) in
    (
      destroy-closed st e,
      λ id.
          answered_by (destroy st e) ((destroy st e).cells id).head (
            no_stream (destroy st e) id (destroy-IsConn st e h) (destroy-IsTorn st e h).no_streams),
      (destroy-IsTorn st e h).no_waiters,
      destroy-woken st e h,
      λ init has_body ticket.
          closed_refuses to_uppercase (destroy st e) init has_body ticket (destroy-closed st e),
      (destroy-IsTorn st e h).no_pings,
    )
