-- ===== src/Bridge/Config.antt =====
-- rust/crates/h2ts-server/src/wslay.rs: the configuration of a bridge, and why it ends. A reason is
-- the list of its bytes, and a duration is in milliseconds.
use h2ts.Common.{ℕ, Bool, false, List, [], Option, some, none, codes}

pub record CloseFrame : Type 0 where
  pub code : ℕ
  pub reason : List ℕ

abbrev pub default_close : CloseFrame
default_close = record { code = 1000; reason = [] }

pub record KeepAlive : Type 0 where
  pub interval : ℕ
  pub timeout : ℕ
  pub close : CloseFrame

-- `KeepAlive::new`
abbrev pub new_keepalive : ℕ → ℕ → KeepAlive
new_keepalive interval timeout = record {
  interval = interval;
  timeout = timeout;
  close = record { code = 1001; reason = codes "keepalive timeout" };
}

abbrev pub default_keepalive : KeepAlive
default_keepalive = new_keepalive 30000 15000

-- Whether a hook is there, and whether there is a channel of commands.
pub record BridgeConfig : Type 0 where
  pub close : CloseFrame
  pub error_close : CloseFrame
  pub keepalive : Option KeepAlive
  pub control : Bool
  pub on_close : Bool
  pub on_ping : Bool
  pub on_pong : Bool

abbrev pub default_config : BridgeConfig
default_config = record {
  close = default_close;
  error_close = record { code = 1011; reason = [] };
  keepalive = some default_keepalive;
  control = false;
  on_close = false;
  on_ping = false;
  on_pong = false;
}

pub data EndReason : Type 0 where
  peer_close : CloseFrame → EndReason
  local_close : CloseFrame → EndReason
  abnormal : EndReason

-- An error of the socket is its text.
pub data Ended : Type 0 where
  ok : EndReason → Ended
  failed : List ℕ → Ended

unfoldable pub closed_with : Ended → CloseFrame
closed_with (Ended.ok (EndReason.peer_close cf)) = cf
closed_with (Ended.ok (EndReason.local_close cf)) = cf
closed_with (Ended.ok EndReason.abnormal) = record { code = 1006; reason = [] }
closed_with (Ended.failed text) = record { code = 1006; reason = text }

-- What `bridge_with` returns: the text of an error, if it failed.
abbrev pub returned : Ended → Option (List ℕ)
returned (Ended.ok why) = none
returned (Ended.failed text) = some text

pub data ControlCmd : Type 0 where
  ping : List ℕ → ControlCmd
  pong : List ℕ → ControlCmd
  close : CloseFrame → ControlCmd
