-- ===== src/Connection/Invariant/Driver.antt =====
-- rust/crates/h2ts-client/src/connection.rs: `dispatch` and `on_bytes` keep the invariant, and do not
-- panic.
use h2ts.Common.{ℕ, ◌≡◌, ◌≢◌, refl, false, if_case, List, [], ◌∷◌, some, none}
use h2ts.Common.Int.{ℤ}
use h2ts.Errors.{Outcome, ok, err, panic}
use h2ts.Frames.Types.{Frame}
use h2ts.Frames.Decoder.{push as push_chunk, FrameDecoder}
use h2ts.Frames.Chunks.{push-ne-panic}
use h2ts.Connection.State.{ConnState, HeaderBlockKind}
use h2ts.Connection.Blocks.{Done}
use h2ts.Connection.Dispatch.{on_frame, dispatch, and_next, dispatch_all, framed, on_bytes, blocked}
use h2ts.Connection.Live.{IsOpen}
use h2ts.Connection.Invariant.{core-IsConn, IsConn}
use h2ts.Connection.Invariant.Teardown.{unbounded, connection_error-IsConn}
use h2ts.Connection.Invariant.Windows.{Keeps, on_settings-Keeps}
use h2ts.Connection.Invariant.Frames.{
  on_data-IsConn, on_rst_stream-IsConn, on_window_update-Keeps, on_ping-IsConn, on_goaway-IsConn,
}
use h2ts.Connection.Invariant.Blocks.{first-Keeps, on_continuation-Keeps}

on_frame-Keeps :
    (bits : ℕ) (now : ℤ) (st : ConnState) (f : Frame) → IsConn st → Keeps (on_frame bits now st f)
unfolding on_frame
on_frame-Keeps bits now st (Frame.settings ack settings) h = on_settings-Keeps st ack settings h
on_frame-Keeps bits now st (Frame.headers id fragment end_stream end_headers priority) h =
    first-Keeps bits st HeaderBlockKind.response id end_stream none fragment end_headers h
on_frame-Keeps bits now st (Frame.continuation id fragment end_headers) h =
    on_continuation-Keeps bits st st.pending_header_block id fragment end_headers h refl
on_frame-Keeps bits now st (Frame.push_promise id promised fragment end_headers) h =
    first-Keeps bits st HeaderBlockKind.push id false (some promised) fragment end_headers h
on_frame-Keeps bits now st (Frame.data_frame id bytes end_stream) h =
    on_data-IsConn st id bytes end_stream h
on_frame-Keeps bits now st (Frame.rst_stream id error_code) h =
    on_rst_stream-IsConn st id error_code h
on_frame-Keeps bits now st (Frame.window_update id increment) h =
    on_window_update-Keeps st id increment h
on_frame-Keeps bits now st (Frame.ping ack opaque_data) h = on_ping-IsConn st now ack opaque_data h
on_frame-Keeps bits now st (Frame.goaway last error_code debug_data) h =
    on_goaway-IsConn st last error_code h
on_frame-Keeps bits now st (Frame.priority id p) h = h

pub dispatch-Keeps :
    (bits : ℕ) (now : ℤ) (st : ConnState) (f : Frame) → IsConn st → Keeps (dispatch bits now st f)
unfolding dispatch
dispatch-Keeps bits now st f h =
    if_case Keeps (blocked st.pending_header_block f) (λ b. unbounded st h)
      (λ b. on_frame-Keeps bits now st f h)

-- No error is left, and the invariant is kept.
abbrev pub KeepsAlways : Done → Type 0
KeepsAlways (o, st) = (o ≡ ok tt) × IsConn st

next-KeepsAlways :
    (k : ConnState → Done) (r : Done)
    → Keeps r
    → ((st : ConnState) → IsConn st → KeepsAlways (k st))
    → KeepsAlways (and_next k r)
next-KeepsAlways k (ok u, st) h rec = rec st h
next-KeepsAlways k (err e, st) h rec = (refl, connection_error-IsConn st e h)
next-KeepsAlways k (panic, st) h rec = absurd h

dispatch_all-KeepsAlways :
    (bits : ℕ) (now : ℤ) (fs : List Frame) (st : ConnState)
    → IsConn st
    → KeepsAlways (dispatch_all bits now fs st)
unfolding dispatch_all
dispatch_all-KeepsAlways bits now [] st h = (refl, h)
dispatch_all-KeepsAlways bits now (f ∷ fs) st h =
    next-KeepsAlways (dispatch_all bits now fs) (dispatch bits now st f)
      (dispatch-Keeps bits now st f h) (dispatch_all-KeepsAlways bits now fs)

framed-KeepsAlways :
    (bits : ℕ) (now : ℤ) (st : ConnState) (o : Outcome (List Frame))
    → IsConn st
    → o ≢ panic
    → KeepsAlways (framed bits now st o)
framed-KeepsAlways bits now st (ok fs) h n = dispatch_all-KeepsAlways bits now fs st h
framed-KeepsAlways bits now st (err e) h n = (refl, connection_error-IsConn st e (unbounded st h))
framed-KeepsAlways bits now st panic h n = absurd (n refl)

frames-IsConn :
    (st : ConnState) (d : FrameDecoder) → IsConn st → IsConn (record st { frame_decoder = d })
frames-IsConn st d h =
    core-IsConn IsOpen st (record st { frame_decoder = d }) h refl refl refl refl refl refl refl
      refl refl

-- Whatever bytes the peer sends, and however they are cut, the connection handles them: `on_bytes`
-- does not panic, leaves no error to its caller, and keeps the connection's invariant.
pub on_bytes-IsConn :
    (bits : ℕ) (now : ℤ) (st : ConnState) (chunk : List ℕ)
    → IsConn st
    → ((on_bytes bits now st chunk).0 ≡ ok tt) × IsConn (on_bytes bits now st chunk).1
unfolding on_bytes
on_bytes-IsConn bits now st chunk h =
    let (fs, d) = push_chunk st.frame_decoder chunk in
    framed-KeepsAlways bits now (record st { frame_decoder = d }) fs (frames-IsConn st d h)
      (push-ne-panic st.frame_decoder chunk)
