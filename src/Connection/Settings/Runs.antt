-- ===== src/Connection/Settings/Runs.antt =====
-- The theorems on the peer's settings at concrete inputs.
use h2ts.Common.{◌≡◌, refl, arith, [], ◌∷◌, some}
use h2ts.Common.Int.{pos, negsuc, ◌+ℤ◌, ◌-ℤ◌}
use h2ts.Errors.{ok}
use h2ts.Frames.Types.{Settings, no_settings}
use h2ts.Flow.{new, adjust, wake}
use h2ts.Connection.Settings.{
  Peer, default_settings, apply_remote_settings, apply_window, apply_frame_size, set_initial_window,
}
use h2ts.Connection.Settings.Limits.{IsPeer, used, apply_remote_settings-used}

-- A stream that has used its window up, and a parked request.
abbrev before : Peer
before = record {
  remote = default_settings;
  stream_windows = new (pos 0) ∷ [];
  slot_waiters = 7 ∷ [];
  admitted = [];
}

abbrev smaller : Settings
smaller = record no_settings { initial_window_size = some 65530; max_concurrent_streams = some 100 }

-- The window of the stream is below zero now, and the request is woken.
abbrev after : Peer
after = record {
  remote = record default_settings {
    initial_window_size = pos 65530;
    max_concurrent_streams = 100;
  };
  stream_windows = new (negsuc 4) ∷ [];
  slot_waiters = [];
  admitted = 7 ∷ [];
}

smaller_applies : apply_remote_settings before smaller ≡ ok after
unfolding apply_remote_settings apply_window apply_frame_size set_initial_window adjust wake ◌+ℤ◌
    ◌-ℤ◌
smaller_applies = refl

before-IsPeer : IsPeer before
before-IsPeer = record {
  frame_low = omega arith;
  frame_high = omega arith;
  window_sign = refl;
  window_high = omega arith;
}

apply_remote_settings-used_example : used after ≡ used before
apply_remote_settings-used_example = apply_remote_settings-used before after smaller smaller_applies
