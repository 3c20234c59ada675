-- ===== src/Connection/Settings.antt =====
-- rust/crates/h2ts-client/src/connection.rs: the peer's settings and `apply_remote_settings`.
pub mod Limits
mod Runs
use h2ts.Common.{
  ℕ, ◌+◌, ◌-◌, ◌^◌, ◌≤◌, ◌≡◌, refl, ap, ap₂, sym, ◌∙◌, Bool, true, false, ◌||◌, ltb, List, [], ◌∷◌,
  ◌++◌, map, Option, some, none, arith, if◌then◌else◌,
}
use h2ts.Common.Int.{ℤ, pos, negsuc, pos_part, neg_part, ◌+ℤ◌, ◌-ℤ◌, int_laws}
use h2ts.Errors.{Outcome, ok, err, panic, ◌>>=◌, ◌>>◌, reject, H2Error, ErrorCode, text}
use h2ts.Errors
use h2ts.Frames.Types.{Settings, default_max_frame_size}
use h2ts.Flow.{SendWindow, adjust, wake}

pub record RemoteSettings : Type 0 where
  pub initial_window_size : ℤ
  pub max_frame_size : ℕ
  pub header_table_size : ℕ
  pub enable_push : Bool
  pub max_concurrent_streams : ℕ

-- `RemoteSettings::default()`
abbrev pub default_settings : RemoteSettings
default_settings = record {
  initial_window_size = pos 65535;
  max_frame_size = default_max_frame_size;
  header_table_size = 4096;
  enable_push = true;
  max_concurrent_streams = 2 ^ 32 - 1;
}

-- What `apply_remote_settings` changes of the connection's state. `admitted` holds the parked
-- requests that were woken so far.
pub record Peer : Type 0 where
  pub remote : RemoteSettings
  pub stream_windows : List SendWindow
  pub slot_waiters : List ℕ
  pub admitted : List ℕ

-- `wake_slot_waiters`
abbrev pub wake_slot_waiters : Peer → Peer
wake_slot_waiters p = record p { slot_waiters = []; admitted = p.admitted ++ p.slot_waiters }

unfoldable pub set_initial_window : Peer → ℕ → Peer
set_initial_window p iw =
    let delta = pos iw -ℤ p.remote.initial_window_size in
    record p {
      remote = record p.remote { initial_window_size = pos iw };
      stream_windows = map (λ w. adjust w delta) p.stream_windows;
    }

unfoldable pub apply_window : Peer → Option ℕ → Outcome Peer
apply_window p none = ok p
apply_window p (some iw) = do
  reject (ltb 0x7fff_ffff iw)
      (Errors.new ErrorCode.flow_control_error (text "SETTINGS_INITIAL_WINDOW_SIZE exceeds 2^31-1"))
  ok (set_initial_window p iw)

unfoldable pub apply_frame_size : Peer → Option ℕ → Outcome Peer
apply_frame_size p none = ok p
apply_frame_size p (some mfs) = do
  reject (ltb mfs 16384 || ltb 16_777_215 mfs)
      (Errors.new ErrorCode.protocol_error (text "SETTINGS_MAX_FRAME_SIZE out of range"))
  ok (record p { remote = record p.remote { max_frame_size = mfs } })

abbrev pub apply_table_size : Peer → Option ℕ → Peer
apply_table_size p none = p
apply_table_size p (some hts) = record p { remote = record p.remote { header_table_size = hts } }

abbrev pub apply_push : Peer → Option Bool → Peer
apply_push p none = p
apply_push p (some ep) = record p { remote = record p.remote { enable_push = ep } }

abbrev pub apply_streams : Peer → Option ℕ → Peer
apply_streams p none = p
apply_streams p (some mcs) =
    wake_slot_waiters (record p { remote = record p.remote { max_concurrent_streams = mcs } })

-- An error ends the connection, so that the state behind it is not modelled.
unfoldable pub apply_remote_settings : Peer → Settings → Outcome Peer
unfolding apply_window apply_frame_size
apply_remote_settings p s = do
  p1 ← apply_window p s.initial_window_size
  p2 ← apply_frame_size p1 s.max_frame_size
  ok (
      apply_streams (apply_push (apply_table_size p2 s.header_table_size) s.enable_push)
        s.max_concurrent_streams)
