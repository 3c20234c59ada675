-- ===== src/Connection/Pump/Waits.antt =====
-- rust/crates/h2ts-client/src/connection.rs: a body pump that waits is registered with a window.
use h2ts.Common.{
  ℕ, ◌≡◌, refl, Bool, true, false, ◌&&◌, List, Option, some, none, ◌⊎◌, inl, inr, arith,
  if◌then◌else◌, ◌≢◌,
}
use h2ts.Flow.{SendWindow, is_ready, register_waker}
use h2ts.Connection.Pump.{Shared, Round, send_next, round, park_if, while_open}

-- The task waits on the connection's window, which is not ready, or on the stream's.
abbrev pub Waits : Shared → ℕ → Shared → Type 0
Waits s task t =
    ((is_ready s.conn_send_window ≡ false)
      × (t.conn_send_window ≡ register_waker s.conn_send_window task))
    ⊎ ((w : SendWindow) × (s.stream_window ≡ some w)
        × (is_ready w ≡ false)
        × (t.stream_window ≡ some (register_waker w task)))

abbrev Parks : Shared → ℕ → Round × Shared → Type 0
Parks s task p = p.0 ≡ Round.parked → Waits s task p.1

send_next-ne-parked :
    (s : Shared) (w : SendWindow) (rest : List ℕ) → (send_next s w rest).0 ≢ Round.parked
unfolding send_next
send_next-ne-parked s w rest e = ground arith

-- The two tests of the wait.
parked_by :
    (s : Shared) (w : SendWindow) (task : ℕ) (conn_ready stream_ready : Bool) (x : Round × Shared)
    → s.stream_window ≡ some w
    → is_ready s.conn_send_window ≡ conn_ready
    → is_ready w ≡ stream_ready
    → x.0 ≢ Round.parked
    → Parks s task (
        if conn_ready && stream_ready then x else (
          Round.parked,
          record s {
            conn_send_window = park_if conn_ready task s.conn_send_window;
            stream_window = some (park_if stream_ready task w);
          },
        ))
parked_by s w task true true x hw hc hs hx e = absurd (hx e)
parked_by s w task false stream_ready x hw hc hs hx e = inl (hc, refl)
parked_by s w task true false x hw hc hs hx e = inr (w, hw, hs, refl)

while_open-Parks :
    (s : Shared) (o : Option SendWindow) (rest : List ℕ) (task : ℕ)
    → s.stream_window ≡ o
    → Parks s task (while_open s o rest task)
while_open-Parks s none rest task hw e = absurd (ground arith)
while_open-Parks s (some w) rest task hw e =
    parked_by s w task (is_ready s.conn_send_window) (is_ready w) (send_next s w rest) hw refl refl
      (send_next-ne-parked s w rest) e

if-Parks :
    (b : Bool) (s : Shared) (task : ℕ) (p : Round × Shared)
    → Parks s task p
    → Parks s task (if b then (Round.stopped, s) else p)
if-Parks true s task p h e = absurd (ground arith)
if-Parks false s task p h e = h e

-- A round that waits has registered its task with a window that is not ready, of the connection or
-- of the stream, so that the grant or the teardown that makes it ready wakes the pump.
pub round-Waits :
    (s : Shared) (rest : List ℕ) (task : ℕ)
    → (round s rest task).0 ≡ Round.parked
    → Waits s task (round s rest task).1
unfolding round
round-Waits s rest task =
    if-Parks s.closed s task (while_open s s.stream_window rest task)
      (while_open-Parks s s.stream_window rest task refl)
