-- ===== src/Connection/Credit/Body.antt =====
-- rust/crates/h2ts-client/src/connection.rs: what a body that is read and
-- dropped gives back to the windows.
use h2ts.Common.{
  ℕ, ◌+◌, ◌^◌, ◌≤◌, ◌<◌, ◌≡◌, refl, sym, ap, ◌∙◌, Bool, true, false, ◌==◌, not, ==_iff,
  if◌then◌else◌, List, [], ◌∷◌, length, arith,
}
use mathlib.Core.List.{flatten}
use h2ts.Common.Dict.{has_key}
use h2ts.Errors.{H2Error, ErrorCode, value, reset_locally}
use h2ts.Errors
use h2ts.Frames.Types.{Frame}
use h2ts.Connection.Receive.{RecvState, Poll, at_end, from_queue, replenished}
use h2ts.Connection.Receive
use h2ts.Connection.State.{Cell, ConnState, send_frame, set_cell, wake_slot_waiters}
use h2ts.Connection.Control.{fail_all, replenish_recv_window, reset_stream}
use h2ts.Connection.Client.{poll_body, drop_body}
use h2ts.Connection.Invariant.Drain.{fail_all-sent}
use h2ts.Connection.Credit.{
  credit, IsGranted, send_frame-credit, replenish-IsGranted, from_queue-IsTaken,
}

-- A body that is polled by some tasks in turn.
abbrev pub polls : ConnState → ℕ → List ℕ → ConnState
polls st id [] = st
polls st id (task ∷ tasks) = polls (poll_body st id task).1 id tasks

-- A body of an open connection whose buffer counts what it holds, and what the connection's window and
-- the stream's have been granted, once the rest of the buffer is granted too.
record Owes (id a b : ℕ) (st : ConnState) : Type 0 where
  running : st.closed ≡ false
  held : st.out_tx ≡ true
  counted : (st.cells id).recv.buffered ≡ length (flatten (st.cells id).recv.queue)
  small : length (flatten (st.cells id).recv.queue) < 2 ^ 32
  of_conn : credit 0 st.sent + length (flatten (st.cells id).recv.queue) ≡ a
  of_stream :
      credit id st.sent
        + (if has_key id st.streams then length (flatten (st.cells id).recv.queue) else 0)
      ≡ b

taken-Owes :
    (id a b n : ℕ) (st u v : ConnState) (r : RecvState)
    → Owes id a b st
    → IsGranted id n u v
    → u.sent ≡ st.sent
    → u.streams ≡ st.streams
    → (u.cells id).recv ≡ r
    → r.buffered ≡ length (flatten r.queue)
    → length (flatten r.queue) + n ≡ length (flatten (st.cells id).recv.queue)
    → Owes id a b v
taken-Owes id a b n st u v r o g sent streams cell counted taken =
    let same : (v.cells id).recv ≡ r = ap (λ (cs : ℕ → Cell). (cs id).recv) g.cells ∙ cell in
    let left = ap (λ (s : RecvState). length (flatten s.queue)) same in
    let key = g.keys ∙ ap (has_key id) streams in
    record {
      running = g.running;
      held = g.held;
      counted = ap (λ (s : RecvState). s.buffered) same ∙ counted ∙ sym left;
      small = omega (arith, left, taken, o.small);
      of_conn = omega (arith, left, taken, o.of_conn, g.of_conn, ap (credit 0) sent);
      of_stream = ground (
        arith,
        left,
        taken,
        o.of_stream,
        g.of_stream,
        ap (credit id) sent,
        key,
        ap (has_key id) streams,
      );
    }

recv-set_cell : (st : ConnState) (id : ℕ) (c : Cell) → ((set_cell st id c).cells id).recv ≡ c.recv
recv-set_cell st id c = let same : (id == id) ≡ true = (==_iff id id).1 refl in rw same refl

poll_body-Owes :
    (id a b : ℕ) (st : ConnState) (task : ℕ)
    → 1 ≤ id
    → Owes id a b st
    → Owes id a b (poll_body st id task).1
unfolding poll_body Receive.poll_next
poll_body-Owes id a b st task p o =
    let c = st.cells id in
    let (answer, r) = from_queue c.recv c.recv.queue task in
    let t = from_queue-IsTaken c.recv c.recv.queue task refl o.counted in
    let st1 = set_cell st id (record c { recv = r }) in
    taken-Owes id a b (replenished answer) st st1
      (replenish_recv_window st1 id (replenished answer)) r o
      (replenish-IsGranted id (replenished answer) st1 p (omega (arith, t.taken, o.small)) o.running
        o.held)
      refl refl (recv-set_cell st id (record c { recv = r })) t.counted t.taken

polls-Owes :
    (id a b : ℕ) (st : ConnState) (tasks : List ℕ)
    → 1 ≤ id
    → Owes id a b st
    → Owes id a b (polls st id tasks)
polls-Owes id a b st [] p o = o
polls-Owes id a b st (task ∷ tasks) p o =
    polls-Owes id a b (poll_body st id task).1 tasks p (poll_body-Owes id a b st task p o)

-- A reset grants nothing.
reset_stream-credit :
    (k id : ℕ) (st : ConnState) (code : ErrorCode)
    → st.closed ≡ false
    → st.out_tx ≡ true
    → credit k (reset_stream st id code).sent ≡ credit k st.sent
unfolding reset_stream wake_slot_waiters fail_all
reset_stream-credit k id st code c h =
    let bye = Frame.rst_stream id (value code) in
    let e = send_frame-credit k st bye c h in
    ap (credit k)
      (fail_all-sent (send_frame st bye) (id ∷ []) (Errors.stream code (reset_locally id) id))
    ∙ omega (arith, e)

drop_body-credit :
    (k id : ℕ) (st u : ConnState) (still_open : Bool)
    → u.closed ≡ false
    → u.out_tx ≡ true
    → credit k (if still_open then reset_stream u id ErrorCode.cancel else u).sent ≡ credit k u.sent
drop_body-credit k id st u true c h = reset_stream-credit k id u ErrorCode.cancel c h
drop_body-credit k id st u false c h = refl

drop_body-Settles :
    (id a b : ℕ) (st : ConnState)
    → 1 ≤ id
    → Owes id a b st
    → (credit 0 (drop_body st id).sent ≡ a) × (credit id (drop_body st id).sent ≡ b)
unfolding drop_body Receive.drop_body
drop_body-Settles id a b st p o =
    let r = (st.cells id).recv in
    let u = replenish_recv_window st id r.buffered in
    let g =
      replenish-IsGranted id r.buffered st p (omega (arith, o.counted, o.small)) o.running o.held in
    let still_open = not r.ended in
    (
      drop_body-credit 0 id st u still_open g.running g.held
          ∙ g.of_conn
          ∙ ap (credit 0 st.sent +◌) o.counted
          ∙ o.of_conn,
      drop_body-credit id id st u still_open g.running g.held
          ∙ g.of_stream
          ∙ ap (λ n. credit id st.sent + (if has_key id st.streams then n else 0)) o.counted
          ∙ o.of_stream,
    )

-- The body of a response on an open connection that holds its sender, whose buffer counts less than
-- 2^32 bytes: however often it is polled before it is dropped, the WINDOW_UPDATE frames that the
-- polls and the drop send grant the connection exactly the bytes that were buffered, and grant the
-- same to the stream if it is still in the map, and else nothing. This is of the bytes that were
-- buffered before the first poll: none come in between.
pub drop_body-polls :
    (st : ConnState) (id : ℕ) (tasks : List ℕ)
    → 1 ≤ id
    → st.closed ≡ false
    → st.out_tx ≡ true
    → (st.cells id).recv.buffered ≡ length (flatten (st.cells id).recv.queue)
    → length (flatten (st.cells id).recv.queue) < 2 ^ 32
    → (let n = length (flatten (st.cells id).recv.queue) in
        let u = drop_body (polls st id tasks) id in
        (credit 0 u.sent ≡ credit 0 st.sent + n)
        × (credit id u.sent ≡ credit id st.sent + (if has_key id st.streams then n else 0)))
drop_body-polls st id tasks p running held counted small =
    drop_body-Settles id _ _ (polls st id tasks) p (
      polls-Owes id _ _ st tasks p record {
        running = running;
        held = held;
        counted = counted;
        small = small;
        of_conn = refl;
        of_stream = refl;
      })
