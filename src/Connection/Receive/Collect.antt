-- ===== src/Connection/Receive/Collect.antt =====
-- rust/crates/h2ts-client/src/connection.rs: `Response::bytes`, which reads a body to its end.
use h2ts.Common.{ℕ, Bool, List, [], ◌∷◌, ◌++◌}
use h2ts.Errors.{H2Error}
use h2ts.Connection.Receive.{RecvState, receive_data, fail, end_body, Poll, poll_next, empty}

-- What the future returned, if it did.
pub data Collected : Type 0 where
  collecting : Collected
  ok : Collected
  err : H2Error → Collected

pub record Collecting : Type 0 where
  pub recv : RecvState
  pub out : List ℕ
  pub result : Collected

abbrev pub new_collecting : Collecting
new_collecting = record { recv = empty; out = []; result = Collected.collecting }

abbrev pub on_chunk : Poll × RecvState → List ℕ → Collecting
on_chunk (Poll.chunk chunk, r) out = record {
  recv = r;
  out = out ++ chunk;
  result = Collected.collecting;
}
on_chunk (Poll.failed e, r) out = record { recv = r; out = out; result = Collected.err e }
on_chunk (Poll.finished, r) out = record { recv = r; out = out; result = Collected.ok }
on_chunk (Poll.pending, r) out = record { recv = r; out = out; result = Collected.collecting }

-- A round of the loop; none after the return.
abbrev pub round_at : Collected → ℕ → Collecting → Collecting
round_at Collected.collecting task c = on_chunk (poll_next c.recv task) c.out
round_at Collected.ok task c = c
round_at (Collected.err e) task c = c

unfoldable pub round : ℕ → Collecting → Collecting
round task c = round_at c.result task c

-- What happens to the buffer, and the rounds between.
pub data Event : Type 0 where
  data_received : List ℕ → Bool → Event
  stream_failed : H2Error → Event
  body_ended : Event
  polled : ℕ → Event

unfoldable pub bytes : List Event → Collecting → Collecting
bytes [] c = c
bytes (Event.data_received chunk end_stream ∷ es) c =
    bytes es (record c { recv = receive_data c.recv chunk end_stream })
bytes (Event.stream_failed e ∷ es) c = bytes es (record c { recv = fail c.recv e })
bytes (Event.body_ended ∷ es) c = bytes es (record c { recv = end_body c.recv })
bytes (Event.polled task ∷ es) c = bytes es (round task c)
