-- ===== src/Connection/Drive/Runs.antt =====
-- The theorems on the connection at concrete inputs.
use h2ts.Common.{ℕ, ◌≡◌, ◌++◌, refl, Bool, true, false, List, [], ◌∷◌, none, some}
use h2ts.Common.Int.{pos, ◌-ℤ◌}
use h2ts.Errors.{H2Error, ErrorCode, Outcome, ok, value, text}
use h2ts.Errors
use h2ts.Frames.Types.{Frame}
use h2ts.Hpack.Encoder.{encode}
use h2ts.Connection.Head.{Head, RequestInit, build_request_headers}
use h2ts.Connection.State.{ConnState, Output, can_open_stream, new_stream, write_raw, send_frame}
use h2ts.Connection.Settings.{default_settings}
use h2ts.Connection.Control.{destroy, connection_error}
use h2ts.Connection.Dispatch.{on_bytes, on_rst_stream}
use h2ts.Connection.Client.{Admission, ConnectOptions, answer, connect, request, initial}
use h2ts.Connection.Drive.{Steps, Step, receive_chunk}
use h2ts.Connection.Drive.Reach.{Steps-IsConn, destroy_answers}
use h2ts.Connection.Drive.Slots.{IsOpened, request-IsOpened, on_rst_stream_strands}
use h2ts.Connection.Invariant.{IsConn}
use h2ts.Connection.Invariant.Calls.{connect-IsConn}
use h2ts.Connection.Invariant.Driver.{on_bytes-IsConn}
use h2ts.Connection.Invariant.Farewell.{connection_error_tells}

abbrev same : List ℕ → List ℕ
same t = t

abbrev defaults : ConnectOptions
defaults = record {
  header_table_size = none;
  enable_push = none;
  initial_window_size = none;
  max_frame_size = none;
  connection_window_size = none;
}

abbrev get_root : RequestInit
get_root = record { method = none; path = none; authority = none; scheme = none; headers = [] }

-- A request, a byte of the peer, and a second request.
abbrev two_requests : ConnState
two_requests =
    let st = (request same (connect defaults) get_root false 0).1 in
    (request same (receive_chunk 64 (pos 0) st (0 ∷ [])).1 get_root false 1).1

abbrev used_for_a_while : Steps 64 same (connect defaults) two_requests
used_for_a_while =
    Steps.then_step
      (Steps.then_step (Steps.then_step Steps.here (Step.requested get_root false 0))
        (Step.received (pos 0) (0 ∷ [])))
      (Step.requested get_root false 1)

Steps-IsConn_example : IsConn two_requests
Steps-IsConn_example = Steps-IsConn 64 same defaults two_requests used_for_a_while

on_bytes-IsConn_example :
    ((on_bytes 64 (pos 0) (connect defaults) (0 ∷ 0 ∷ [])).0 ≡ ok tt)
    × IsConn (on_bytes 64 (pos 0) (connect defaults) (0 ∷ 0 ∷ [])).1
on_bytes-IsConn_example =
    on_bytes-IsConn 64 (pos 0) (connect defaults) (0 ∷ 0 ∷ []) (connect-IsConn defaults)

abbrev broken : H2Error
broken = Errors.new ErrorCode.internal_error (text "broken")

destroy_answers_example :
    ((destroy (request same (connect defaults) get_root false 0).1 broken).closed ≡ true)
    × ((id : ℕ)
        → (r : Outcome Head) × (answer
              (destroy (request same (connect defaults) get_root false 0).1 broken)
              ((destroy (request same (connect defaults) get_root false 0).1 broken).cells id).head
            ≡ some r))
    × ((destroy (request same (connect defaults) get_root false 0).1 broken).slot_waiters ≡ [])
    × ((destroy (request same (connect defaults) get_root false 0).1 broken).admitted
        ≡ (request same (connect defaults) get_root false 0).1.admitted
          ++ (request same (connect defaults) get_root false 0).1.slot_waiters)
    × ((init : RequestInit) (has_body : Bool) (ticket : ℕ)
        → (r : H2Error) × ((request same
              (destroy (request same (connect defaults) get_root false 0).1 broken)
              init
              has_body
              ticket).0
            ≡ ok (Admission.refused r)))
    × ((destroy (request same (connect defaults) get_root false 0).1 broken).pings ≡ [])
destroy_answers_example =
    destroy_answers 64 same defaults (request same (connect defaults) get_root false 0).1 broken
      (Steps.then_step Steps.here (Step.requested get_root false 0))

request-IsOpened_example :
    ((request same (connect defaults) get_root true 0).0
      ≡ ok (Admission.opened (connect defaults).next_stream_id))
    × IsOpened
        (connect defaults)
        (request same (connect defaults) get_root true 0).1
        (encode (build_request_headers same get_root))
        false
unfolding connect can_open_stream write_raw send_frame ◌-ℤ◌
request-IsOpened_example =
    request-IsOpened same (connect defaults) get_root true 0 (connect-IsConn defaults) refl refl
      refl

connection_error_tells_example :
    ((connection_error (connect defaults) broken).sent
      ≡ (connect defaults).sent
        ++ (Output.frame (Frame.goaway (connect defaults).highest_promised (value broken.code) [])
            ∷ []))
    × ((connection_error (connect defaults) broken).closed ≡ true)
    × ((connection_error (connect defaults) broken).close_error ≡ some broken)
unfolding connect write_raw send_frame ◌-ℤ◌
connection_error_tells_example =
    connection_error_tells (connect defaults) broken (connect-IsConn defaults) refl

-- One stream where the peer allows one, and a request that is parked.
abbrev full : ConnState
full = record (initial 4096 16384) {
  streams = (1, new_stream (pos 65535)) ∷ [];
  remote = record default_settings { max_concurrent_streams = 1 };
  slot_waiters = 7 ∷ [];
}

on_rst_stream_strands_example :
    (can_open_stream full ≡ false)
    × (can_open_stream (on_rst_stream full 1 8) ≡ true)
    × ((on_rst_stream full 1 8).slot_waiters ≡ full.slot_waiters)
    × ((on_rst_stream full 1 8).admitted ≡ full.admitted)
on_rst_stream_strands_example =
    on_rst_stream_strands full 1 8 (new_stream (pos 65535)) refl refl refl
