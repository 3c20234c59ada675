-- ===== src/Connection/Runs.antt =====
-- Runs of the connection, and its theorems at concrete inputs.
use h2ts.Common.{◌≡◌, refl, arith, true, false, List, [], ◌∷◌, ◌++◌, none}
use mathlib.Core.List.{flatten}
use h2ts.Errors
use h2ts.Errors.{ok, ErrorCode, Message}
use h2ts.Connection.Receive.Collect.{Event, Collected, new_collecting, bytes, round}
use h2ts.Connection.Receive.Whole.{IsCollected, body, told, first_failure, bytes-IsCollected}
use h2ts.Frames.Types.{Frame}
use h2ts.Connection.SendHeaders.{send_headers, continuations, Carries, send_headers-Carries}
use h2ts.Connection.Receive.{RecvState, empty, receive_data, poll_next, drop_body, fail}
use h2ts.Connection.Receive.Accounts.{Step, Steps, accepted, delivered, accepted-delivered}

-- Five bytes in frames of two.
five_bytes :
    send_headers 2 1 (1 ∷ 2 ∷ 3 ∷ 4 ∷ 5 ∷ []) true
    ≡ ok (
        Frame.headers 1 (1 ∷ 2 ∷ []) true false none
        ∷ Frame.continuation 1 (3 ∷ 4 ∷ []) false
        ∷ Frame.continuation 1 (5 ∷ []) true
        ∷ [])
unfolding send_headers continuations
five_bytes = refl

send_headers-Carries_example :
    (fs : List Frame) × (send_headers 2 1 (1 ∷ 2 ∷ 3 ∷ 4 ∷ 5 ∷ []) true ≡ ok fs)
    × Carries 2 1 true (1 ∷ 2 ∷ 3 ∷ 4 ∷ 5 ∷ []) fs
send_headers-Carries_example = send_headers-Carries 2 1 (1 ∷ 2 ∷ 3 ∷ 4 ∷ 5 ∷ []) true (omega arith)

-- Two chunks arrive, one is read, and the second one is still buffered.
abbrev two_chunks : RecvState
two_chunks = receive_data (receive_data empty (1 ∷ 2 ∷ []) false) (3 ∷ []) true

abbrev one_read : RecvState
one_read = (poll_next two_chunks 7).1

abbrev reading : Steps empty one_read
reading =
    Steps.next
      (Steps.next (Steps.next Steps.done (Step.data_received (1 ∷ 2 ∷ []) false))
        (Step.data_received (3 ∷ []) true))
      (Step.polled 7)

one_buffered : drop_body one_read ≡ (1, false)
unfolding drop_body poll_next receive_data
one_buffered = refl

accepted-delivered_example : accepted reading ≡ delivered reading ++ flatten one_read.queue
accepted-delivered_example = accepted-delivered one_read reading

-- A chunk, a failure, a chunk that comes too late, and the rounds of `bytes`.
abbrev cut_off : List Event
cut_off =
    Event.data_received (1 ∷ 2 ∷ []) false
    ∷ Event.polled 5
    ∷ Event.polled 5
    ∷ Event.stream_failed (Errors.new ErrorCode.cancel (Message.text "stream"))
    ∷ Event.data_received (3 ∷ []) true
    ∷ Event.polled 5
    ∷ []

cut_off_fails :
    (bytes cut_off new_collecting).result
    ≡ Collected.err (Errors.new ErrorCode.cancel (Message.text "stream"))
unfolding bytes round receive_data fail poll_next
cut_off_fails = refl

bytes-IsCollected_example :
    (let c = bytes cut_off new_collecting in
      IsCollected (body cut_off) (told cut_off) (first_failure cut_off) c.result c)
bytes-IsCollected_example = bytes-IsCollected cut_off
