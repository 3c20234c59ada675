-- ===== src/Connection/Receive.antt =====
-- rust/crates/h2ts-client/src/connection.rs: `RecvState`, the receive buffer that a stream shares
-- with the `ResponseBody` of its response. A waker is the number of the task that it wakes.
pub mod Accounts
pub mod Collect
pub mod Whole
use h2ts.Common.{
  ℕ, ◌+◌, ◌-◌, ◌≡◌, Bool, true, false, ◌&&◌, ◌==◌, ltb, not, List, [], ◌∷◌, ◌++◌, Option, some,
  none, length, if◌then◌else◌,
}
use h2ts.Errors.{H2Error}

-- `woken` holds the tasks woken so far, in order.
pub record RecvState : Type 0 where
  pub queue : List (List ℕ)
  pub buffered : ℕ
  pub ended : Bool
  pub error : Option H2Error
  pub waker : Option ℕ
  pub woken : List ℕ

-- `RecvState::default()`
abbrev pub empty : RecvState
empty = record { queue = []; buffered = 0; ended = false; error = none; waker = none; woken = [] }

-- `if let Some(w) = recv.waker.take() { w.wake(); }`
abbrev pub called : Option ℕ → List ℕ
called none = []
called (some task) = task ∷ []

abbrev pub notify : RecvState → RecvState
notify r = record r { waker = none; woken = r.woken ++ called r.waker }

abbrev is_none : Option H2Error → Bool
is_none none = true
is_none (some e) = false

abbrev pub is_empty : List ℕ → Bool
is_empty [] = true
is_empty (b ∷ r) = false

-- The test under which `receive_data` keeps the bytes.
abbrev pub keeps : RecvState → List ℕ → Bool
keeps r bytes = not (is_empty bytes) && (is_none r.error && not r.ended)

abbrev enqueue : RecvState → List ℕ → RecvState
enqueue r bytes =
    if keeps r bytes
    then record r { queue = r.queue ++ (bytes ∷ []); buffered = r.buffered + length bytes }
    else r

abbrev finish_if : Bool → RecvState → RecvState
finish_if end_stream r = if end_stream then record r { ended = true } else r

-- `StreamState::receive_data`
unfoldable pub receive_data : RecvState → List ℕ → Bool → RecvState
receive_data r bytes end_stream = notify (finish_if end_stream (enqueue r bytes))

abbrev keep_error : Option H2Error → H2Error → Option H2Error
keep_error none e = some e
keep_error (some e') e = some e'

-- The part of `StreamState::fail` that concerns the buffer.
unfoldable pub fail : RecvState → H2Error → RecvState
fail r e = notify (record r { error = keep_error r.error e; ended = true })

-- `StreamState::end_body`
unfoldable pub end_body : RecvState → RecvState
end_body r = if r.ended then r else notify (record r { ended = true })

-- What `poll_next` answers: a chunk, the error, the end, or nothing until the task is woken.
pub data Poll : Type 0 where
  chunk : List ℕ → Poll
  failed : H2Error → Poll
  finished : Poll
  pending : Poll

abbrev pub at_end : RecvState → Option H2Error → Bool → ℕ → Poll × RecvState
at_end r (some e) ended task = (Poll.failed e, record r { error = none })
at_end r none true task = (Poll.finished, r)
at_end r none false task = (Poll.pending, record r { waker = some task })

abbrev pub from_queue : RecvState → List (List ℕ) → ℕ → Poll × RecvState
from_queue r (bytes ∷ rest) task =
    (Poll.chunk bytes, record r { queue = rest; buffered = r.buffered - length bytes })
from_queue r [] task = at_end r r.error r.ended task

-- `ResponseBody::poll_next`, polled by a task.
unfoldable pub poll_next : RecvState → ℕ → Poll × RecvState
poll_next r task = from_queue r r.queue task

-- What `replenish` gives back to the windows after a poll: the bytes of the chunk.
abbrev pub replenished : Poll → ℕ
replenished (Poll.chunk bytes) = length bytes
replenished _ = 0

-- `Drop for ResponseBody`: what it gives back to the windows, and whether it resets the stream.
unfoldable pub drop_body : RecvState → ℕ × Bool
drop_body r = (r.buffered, not r.ended)
