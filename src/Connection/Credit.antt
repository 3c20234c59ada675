-- ===== src/Connection/Credit.antt =====
-- rust/crates/h2ts-client/src/connection.rs: the bytes that window updates grant.
pub mod Body
mod Runs
use h2ts.Common.{
  ℕ, ◌+◌, ◌%◌, ◌^◌, ◌≤◌, ◌<◌, ◌≡◌, refl, sym, ap, ◌∙◌, Bool, true, false, ◌==◌, ◌||◌, true-ne-false,
  subst, not, ==_iff, if_case, if◌then◌else◌, List, [], ◌∷◌, ◌++◌, Option, some, none, length,
  length-append, arith,
}
use mathlib.Core.List.{flatten}
use h2ts.Common.Dict.{has_key, update}
use h2ts.Errors.{H2Error, ErrorCode, value, reset_locally}
use h2ts.Errors
use h2ts.Frames.Types.{Frame}
use h2ts.Connection.Receive.{RecvState, Poll, at_end, from_queue, replenished}
use h2ts.Connection.Receive
use h2ts.Connection.State.{
  Cell, ConnState, Output, write_raw, send_frame, set_cell, wake_slot_waiters,
}
use h2ts.Connection.Control.{fail_all, replenish_recv_window, reset_stream}
use h2ts.Connection.Client.{poll_body, drop_body}
use h2ts.Connection.Invariant.Drain.{fail_all-sent}

-- What a WINDOW_UPDATE grants on a stream, or on the connection, which is 0.
abbrev granted : ℕ → Output → ℕ
granted id (Output.frame (Frame.window_update k n)) = if k == id then n else 0
granted id _ = 0

abbrev pub credit : ℕ → List Output → ℕ
credit id [] = 0
credit id (o ∷ r) = granted id o + credit id r

credit-append :
    (id : ℕ) (os : List Output) (o : Output)
    → credit id (os ++ o ∷ []) ≡ credit id os + granted id o
credit-append id [] o = omega arith
credit-append id (p ∷ os) o = omega (arith, credit-append id os o)

pub send_frame-credit :
    (id : ℕ) (st : ConnState) (f : Frame)
    → st.closed ≡ false
    → st.out_tx ≡ true
    → credit id (send_frame st f).sent ≡ credit id st.sent + granted id (Output.frame f)
unfolding send_frame write_raw
send_frame-credit id st f c h = rw (c, h) (credit-append id st.sent (Output.frame f))

-- What a call changes, if it grants a number of bytes.
pub record IsGranted (id n : ℕ) (st u : ConnState) : Type 0 where
  pub running : u.closed ≡ false
  pub held : u.out_tx ≡ true
  pub cells : u.cells ≡ st.cells
  pub keys : has_key id u.streams ≡ has_key id st.streams
  pub of_conn : credit 0 u.sent ≡ credit 0 st.sent + n
  pub of_stream : credit id u.sent ≡ credit id st.sent + (if has_key id st.streams then n else 0)

keys-send_frame :
    (id : ℕ) (st : ConnState) (f : Frame)
    → has_key id (send_frame st f).streams ≡ has_key id st.streams
unfolding send_frame write_raw
keys-send_frame id st f = refl

both_updates :
    (id n : ℕ) (st : ConnState)
    → 1 ≤ id
    → st.closed ≡ false
    → st.out_tx ≡ true
    → (b : Bool) → has_key id st.streams ≡ b
    → IsGranted id n st (
        send_frame
          (if b then send_frame st (Frame.window_update id n) else st)
          (Frame.window_update 0 n))
unfolding send_frame write_raw
both_updates id n st p c h true k =
    let s1 = send_frame st (Frame.window_update id n) in
    record {
      running = c;
      held = h;
      cells = refl;
      keys = refl;
      of_conn = ground (
        arith,
        p,
        send_frame-credit 0 st (Frame.window_update id n) c h,
        send_frame-credit 0 s1 (Frame.window_update 0 n) c h,
      );
      of_stream = rw k (
          ground (
            arith,
            p,
            send_frame-credit id st (Frame.window_update id n) c h,
            send_frame-credit id s1 (Frame.window_update 0 n) c h,
          ));
    }
both_updates id n st p c h false k = record {
  running = c;
  held = h;
  cells = refl;
  keys = refl;
  of_conn = ground (arith, p, send_frame-credit 0 st (Frame.window_update 0 n) c h);
  of_stream = rw k (ground (arith, p, send_frame-credit id st (Frame.window_update 0 n) c h));
}

nothing-IsGranted :
    (id n : ℕ) (st : ConnState)
    → st.closed ≡ false
    → st.out_tx ≡ true
    → n ≡ 0
    → IsGranted id n st st
nothing-IsGranted id n st c h z = record {
  running = c;
  held = h;
  cells = refl;
  keys = refl;
  of_conn = omega (arith, z);
  of_stream = ground (arith, z);
}

or_right : (a b : Bool) → a ≡ false → (a || b) ≡ b
or_right true b h = absurd (true-ne-false h)
or_right false b h = refl

pub replenish-IsGranted :
    (id n : ℕ) (st : ConnState)
    → 1 ≤ id
    → n < 2 ^ 32
    → st.closed ≡ false
    → st.out_tx ≡ true
    → IsGranted id n st (replenish_recv_window st id n)
unfolding replenish_recv_window
replenish-IsGranted id n st p small c h =
    let fits : n % 2 ^ 32 ≡ n = omega (arith, small) in
    if_case (IsGranted id n st) (st.closed || n == 0)
      (λ z. nothing-IsGranted id n st c h ((==_iff n 0).0 (sym (or_right _ _ c) ∙ z)))
      (λ nz.
        subst
          (λ inc. IsGranted id n st (
            send_frame
              (if has_key id st.streams then send_frame st (Frame.window_update id inc) else st)
              (Frame.window_update 0 inc)))
          (sym fits) (both_updates id n st p c h (has_key id st.streams) refl))

-- What a poll takes out of the buffer is what it gives back.
pub record IsTaken (r : RecvState) (p : Poll × RecvState) : Type 0 where
  pub counted : p.1.buffered ≡ length (flatten p.1.queue)
  pub taken : length (flatten p.1.queue) + replenished p.0 ≡ length (flatten r.queue)

at_end-IsTaken :
    (r : RecvState) (e : Option H2Error) (ended : Bool) (task : ℕ)
    → r.buffered ≡ length (flatten r.queue)
    → IsTaken r (at_end r e ended task)
at_end-IsTaken r (some e) ended task h = record { counted = h; taken = omega arith }
at_end-IsTaken r none true task h = record { counted = h; taken = omega arith }
at_end-IsTaken r none false task h = record { counted = h; taken = omega arith }

pub from_queue-IsTaken :
    (r : RecvState) (q : List (List ℕ)) (task : ℕ)
    → r.queue ≡ q
    → r.buffered ≡ length (flatten r.queue)
    → IsTaken r (from_queue r q task)
unfolding flatten
from_queue-IsTaken r [] task e h = at_end-IsTaken r r.error r.ended task h
from_queue-IsTaken r (bytes ∷ rest) task e h =
    let whole = ap (λ q. length (flatten q)) e ∙ length-append bytes (flatten rest) in
    record { counted = omega (arith, h, whole); taken = omega (arith, whole) }
